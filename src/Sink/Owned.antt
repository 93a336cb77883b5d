-- ===== src/Sink/Owned.antt =====
-- main.rs: over a connection the sink uses and gives back only what it owns.
use Prim.Native.String.{String}
use rtmp_vcam.Prelude.{ℕ, ◌≡◌, ◌≢◌, Option, none, some, List, Result, ok, err, arith}
use rtmp_vcam.Flv.{AvcDecoderConfig}
use rtmp_vcam.Handshake.{Rml}
use rtmp_vcam.Session.{Rtmp, Tcp}
use rtmp_vcam.Server.{Read, handle_connection}
use rtmp_vcam.Server.Sinks.{handle_connection-Keeps}
use rtmp_vcam.Decoder.{H264Decoder, Frameworks, Machine, DecodeError, new}
use rtmp_vcam.Decoder.Ledger.{gained, lost, new-Gains}
use rtmp_vcam.Decoder.Over.{NeverOver, Holds, decode_avcc-Never}
use rtmp_vcam.Decoder.Making.{new-Never}
use rtmp_vcam.Decoder.Never.{drop_decoder-Never}
use rtmp_vcam.Sink.{
  DecoderSink, new_sink, drop_option, install, on_decoder_config, decode_with, on_video_data,
  drop_sink, decoder_sink,
}
use rtmp_vcam.Sink.Balance.{Balanced, owned_option, config-Balanced, video-Balanced}

module _ (os : Frameworks) (p : ℕ) (ne : p ≢ 0) where
  -- The ledger is that of the sink's decoder, and was never over.
  abbrev Owns : DecoderSink os → Type 0
  Owns s = Balanced os p s × NeverOver p s.machine.entries

  drop_option-Never :
      (d : Option H264Decoder) (m : Machine os)
      → Holds os p (owned_option p d) m
      → NeverOver p (drop_option os d m).entries
  unfolding drop_option
  drop_option-Never none m (le, h) = h
  drop_option-Never (some d) m h = drop_decoder-Never os p ne d m h

  install-Never :
      (r : Result DecodeError H264Decoder) (s : DecoderSink os)
      → Holds os p (owned_option p s.decoder) s.machine
      → NeverOver p (install os r s).machine.entries
  unfolding install
  install-Never (ok d) s h = drop_option-Never s.decoder s.machine h
  install-Never (err x) s (le, h) = h

  config-Never :
      (config : AvcDecoderConfig) (s : DecoderSink os)
      → Owns s
      → NeverOver p (on_decoder_config os config s).machine.entries
  unfolding on_decoder_config
  config-Never config s (even, h) =
      let (r, m) = new os config.sps config.pps config.nalu_length_size s.shm_ptr s.machine in
      install-Never r (record s { machine = m })
        (
          omega (
            arith,
            new-Gains os p ne config.sps config.pps config.nalu_length_size s.shm_ptr s.machine,
          ),
          new-Never os p config.sps config.pps config.nalu_length_size s.shm_ptr s.machine
              (omega arith, h),
        )

  decode_with-Never :
      (d : Option H264Decoder) (avcc_data : List ℕ) (timestamp : ℕ) (m : Machine os)
      → Holds os p (owned_option p d) m
      → NeverOver p (decode_with os d avcc_data timestamp m).entries
  unfolding decode_with
  decode_with-Never none avcc_data timestamp m (le, h) = h
  decode_with-Never (some d) avcc_data timestamp m h =
      decode_avcc-Never os p d avcc_data timestamp m h

  config-Owns :
      (config : AvcDecoderConfig) (s : DecoderSink os)
      → Owns s
      → Owns (on_decoder_config os config s)
  config-Owns config s (even, h) =
      (config-Balanced os p ne config s even, config-Never config s (even, h))

  video-Owns :
      (avcc_data : List ℕ) (timestamp : ℕ) (s : DecoderSink os)
      → Owns s
      → Owns (on_video_data os avcc_data timestamp s)
  unfolding on_video_data
  video-Owns avcc_data timestamp s (even, h) = (
    video-Balanced os p ne avcc_data timestamp s even,
    decode_with-Never s.decoder avcc_data timestamp s.machine (omega arith, h),
  )

  -- Over a connection that starts with a new sink and an even ledger that was never over, and to
  -- the drop of the sink behind it, no object is used or given back at a moment when the
  -- connection does not own it: also where a new configuration replaces a decoder, and whatever
  -- the peer sends, the key, and whatever rml_rtmp, the sockets and the frameworks answer.
  pub connection-NeverOver :
      (rml : Rml) (rtmp : Rtmp) (tcp : Tcp) (stream_key : Option String) (reads : List Read)
      (stream : tcp.TcpStream) (shm_ptr : ℕ) (m : Machine os)
      → gained p m.entries ≡ lost p m.entries
      → NeverOver p m.entries
      → let outcome =
          handle_connection rml rtmp tcp
            (decoder_sink os)
            stream_key
            reads
            stream
            (new_sink os shm_ptr m) in
        NeverOver p (drop_sink os outcome.sink).entries
  unfolding new_sink drop_sink
  connection-NeverOver rml rtmp tcp stream_key reads stream shm_ptr m even h =
      let outcome =
        handle_connection rml rtmp tcp (decoder_sink os) stream_key reads stream
          (new_sink os shm_ptr m) in
      let (even', h') =
        handle_connection-Keeps rml rtmp tcp (decoder_sink os) stream_key Owns config-Owns
          video-Owns reads stream (new_sink os shm_ptr m) (omega arith, h) in
      drop_option-Never outcome.sink.decoder outcome.sink.machine (omega arith, h')
