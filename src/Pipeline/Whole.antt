-- ===== src/Pipeline/Whole.antt =====
-- From the socket to the shared frame buffer: server.rs, session.rs, main.rs and decoder.rs
-- together.
use Prim.Native.String.{String}
use rtmp_vcam.Prelude.{ℕ, ◌≡◌, sym, subst, Option, none, some, List, Result, ok, err}
use rtmp_vcam.Flv.{AvcDecoderConfig}
use rtmp_vcam.Handshake.{Rml}
use rtmp_vcam.Session.{Rtmp, Tcp}
use rtmp_vcam.Server.{Read, handle_connection}
use rtmp_vcam.Server.Sinks.{handle_connection-Keeps}
use rtmp_vcam.Frame
use rtmp_vcam.Decoder.{H264Decoder, Machine, DecodeError, new}
use rtmp_vcam.Decoder.States.{IsKept, new-Kept, decode_avcc-Kept, drop_decoder-Kept}
use rtmp_vcam.Sink.{
  DecoderSink, new_sink, drop_option, install, on_decoder_config, decode_with, on_video_data,
  drop_sink, decoder_sink,
}
use rtmp_vcam.Pipeline.{Shm, VideoToolbox, run_callbacks, with_callback}
use rtmp_vcam.Pipeline.Memory.{IsDocumented, IsSound, run_callbacks-Advanced}

-- The mapping has been accessed within its bounds, and its header is sound.
pub record IsSafe (shm : Shm) : Type 0 where
  pub state : Frame.State
  pub result : shm ≡ ok state
  pub sound : IsSound state

module _ (vt : VideoToolbox)
    (documented : (session sample : ℕ) (t : vt.calls.State)
      → IsDocumented (vt.outputs session sample t)) where
  abbrev Q : vt.calls.State × Shm → Type 0
  Q t = IsSafe t.1

  decode_frame-Safe :
      (session sample : ℕ) (t : vt.calls.State) (shm : Shm)
      → IsSafe shm
      → IsSafe (run_callbacks (vt.outputs session sample t) shm)
  decode_frame-Safe session sample t shm safe =
      let a =
        run_callbacks-Advanced (vt.outputs session sample t) safe.state
          (documented session sample t) safe.sound in
      subst (λ r. IsSafe (run_callbacks (vt.outputs session sample t) r)) (sym safe.result)
        (record { state = a.after; result = a.result; sound = a.sound })

  calls-Safe : IsKept (with_callback vt) Q
  calls-Safe = record {
    format_create = λ sets sizes n t q. q;
    dictionary_create = λ n t q. q;
    number_create = λ n t q. q;
    set_pixel_format = λ d v t q. q;
    set_io_surface = λ d v t q. q;
    box_new = λ p t q. q;
    session_create = λ f a c t q. q;
    session_invalidate = λ d t q. q;
    block_create = λ n t q. q;
    replace_bytes = λ bytes b t q. q;
    sample_create = λ b f timing n t q. q;
  }

  abbrev S : Type 0
  S = DecoderSink (with_callback vt)

  option-Safe :
      (d : Option H264Decoder) (m : Machine (with_callback vt))
      → Q m.state
      → Q (drop_option (with_callback vt) d m).state
  unfolding drop_option
  option-Safe none m q = q
  option-Safe (some d) m q = drop_decoder-Kept (with_callback vt) Q calls-Safe d m q

  install-Safe :
      (r : Result DecodeError H264Decoder) (s : S)
      → Q s.machine.state
      → Q (install (with_callback vt) r s).machine.state
  unfolding install
  install-Safe (ok d) s q = option-Safe s.decoder s.machine q
  install-Safe (err e) s q = q

  config-Safe :
      (config : AvcDecoderConfig) (s : S)
      → Q s.machine.state
      → Q (on_decoder_config (with_callback vt) config s).machine.state
  unfolding on_decoder_config
  config-Safe config s q =
      let (r, m) =
        new (with_callback vt) config.sps config.pps config.nalu_length_size s.shm_ptr s.machine in
      install-Safe r (record s { machine = m })
        (new-Kept (with_callback vt) Q calls-Safe config.sps config.pps config.nalu_length_size
          s.shm_ptr s.machine q)

  decode_with-Safe :
      (d : Option H264Decoder) (avcc_data : List ℕ) (timestamp : ℕ) (m : Machine (with_callback vt))
      → Q m.state
      → Q (decode_with (with_callback vt) d avcc_data timestamp m).state
  unfolding decode_with
  decode_with-Safe none avcc_data timestamp m q = q
  decode_with-Safe (some d) avcc_data timestamp m q =
      decode_avcc-Kept (with_callback vt) Q calls-Safe (λ u b t q. decode_frame-Safe u b t.0 t.1 q)
        d avcc_data timestamp m q

  video-Safe :
      (avcc_data : List ℕ) (timestamp : ℕ) (s : S)
      → Q s.machine.state
      → Q (on_video_data (with_callback vt) avcc_data timestamp s).machine.state
  unfolding on_video_data
  video-Safe avcc_data timestamp s q = decode_with-Safe s.decoder avcc_data timestamp s.machine q

-- Over a whole connection whose sink decodes into the shared frame buffer: whatever the peer sends
-- and whatever rml_rtmp, the sockets and the frameworks answer, as long as pixel buffers have the
-- documented layout, the program accesses the mapping within its bounds only, and a sound header
-- stays sound.
pub connection-Safe :
    (vt : VideoToolbox)
    → ((session sample : ℕ) (t : vt.calls.State) → IsDocumented (vt.outputs session sample t))
    → (rml : Rml) (rtmp : Rtmp) (tcp : Tcp) (stream_key : Option String) (reads : List Read)
      (stream : tcp.TcpStream) (shm_ptr : ℕ) (m : Machine (with_callback vt))
    → IsSafe m.state.1
    → let outcome =
        handle_connection rml rtmp tcp
          (decoder_sink (with_callback vt))
          stream_key
          reads
          stream
          (new_sink (with_callback vt) shm_ptr m) in
      IsSafe (drop_sink (with_callback vt) outcome.sink).state.1
unfolding new_sink drop_sink
connection-Safe vt documented rml rtmp tcp stream_key reads stream shm_ptr m safe =
    let outcome =
      handle_connection rml rtmp tcp (decoder_sink (with_callback vt)) stream_key reads stream
        (new_sink (with_callback vt) shm_ptr m) in
    option-Safe vt documented outcome.sink.decoder outcome.sink.machine (
      handle_connection-Keeps rml rtmp tcp (decoder_sink (with_callback vt)) stream_key
        (λ s. IsSafe s.machine.state.1) (config-Safe vt documented) (video-Safe vt documented) reads
        stream (new_sink (with_callback vt) shm_ptr m) safe)
