-- ===== src/Camera/Talk.antt =====
-- From a whole conversation to a frame that the camera sends: server.rs, session.rs, flv.rs, main.rs,
-- decoder.rs and Stream.swift together, where nothing fails.
use Prim.Native.String.{String}
use rtmp_vcam.Prelude.{
  ℕ, ◌+◌, ◌^◌, ◌<◌, ◌≡◌, ap, ◌∙◌, sym, subst, Option, some, List, [], ◌∷◌, ◌++◌, length, ok, true,
}
use rtmp_vcam.Flv.{AvcDecoderConfig}
use rtmp_vcam.Session.{Rtmp, Tcp, World}
use rtmp_vcam.Session.Feed
use rtmp_vcam.Session.Calls.{SinkCall, config_call, data_call, apply, apply-append}
use rtmp_vcam.Server.{Read, read_loop}
use rtmp_vcam.Server.Talk.{
  Chunk, reads, IsTalk, talk_calls, after_talk, read_loop-talk, after_talk-sink,
}
use rtmp_vcam.Frame
use rtmp_vcam.Frame.Callback.{write_index}
use rtmp_vcam.Sink.{on_video_data, decoder_sink}
use rtmp_vcam.Pipeline.{VideoToolbox, with_callback}
use rtmp_vcam.Pipeline.Live.{IsDisplaying, IsDisplayed}
use rtmp_vcam.Pipeline.Stream.{calls-IsDisplayed}
use rtmp_vcam.Camera.{Platform, Source}
use rtmp_vcam.Camera.Sends.{Makes, IsWorking}
use rtmp_vcam.Camera.Live.{IsShared, IsSent, displayed-IsSent}

-- If the sockets work, rml_rtmp takes the inputs and accepts the requests, no request has a wrong
-- key, video data are bytes, the frameworks' calls succeed, each sample decodes to exactly one
-- image, which is NV12, of positive size and at most 1920x1080, and can be locked, the mapping has
-- met no fault, and the write index does not wrap (with the calls for video data it stays below
-- 2^64): over any number of inputs, whose video data are any packets, then a sequence header, any
-- packets and at last a packet of video data, the session handles all and goes on with its reads.
-- And if the camera is attached and has the shared frame buffer mapped, whose bytes are those that
-- this conversation left and nothing else has written, the next firing of its timer sends exactly
-- one frame, pixel by pixel the image that the last payload decodes to, with the decoder that the
-- sink has then.
pub talk-IsSent :
    (vt : VideoToolbox) (os : Platform) (s : Source os) (q : ℕ)
    (good : IsDisplaying vt (λ w h. os.pixel_buffer w h s.platform)) (rtmp : Rtmp) (tcp : Tcp)
    (allowed_key : Option String) (chunks : List Chunk) (rest : List Read)
    (before middle : List SinkCall) (config : AvcDecoderConfig) (payload : List ℕ) (t : ℕ)
    (w : World rtmp tcp (decoder_sink (with_callback vt))) (start : Frame.State)
    (sockets : Feed.IsWorking rtmp tcp)
    → IsTalk rtmp allowed_key chunks w.session
    → talk_calls rtmp allowed_key chunks w.session
      ≡ (before ++ config_call config ∷ middle) ++ data_call payload t ∷ []
    → w.sink.machine.state.1 ≡ ok start
    → write_index start + length before + length middle + 1 < 2 ^ 64
    → Makes os
    → IsWorking os
    → s.attached ≡ true
    → s.shm_pointer ≡ some q
    → IsShared vt os
        (after_talk rtmp tcp (decoder_sink (with_callback vt)) allowed_key sockets chunks w).sink
        s
        q
    → let sink = decoder_sink (with_callback vt) in
      (read_loop rtmp tcp sink allowed_key (reads chunks rest) w
        ≡ read_loop rtmp tcp sink allowed_key rest
            (after_talk rtmp tcp sink allowed_key sockets chunks w))
      × IsSent vt os s good payload t (apply sink (before ++ config_call config ∷ middle) w.sink)
talk-IsSent vt os s q good rtmp tcp allowed_key chunks rest before middle config payload t w start
      sockets talk calls mapping small makes works attached mapped shared =
    let sink = decoder_sink (with_callback vt) in
    let k = apply sink (before ++ config_call config ∷ middle) w.sink in
    let create = λ (x : ℕ) (y : ℕ). os.pixel_buffer x y s.platform in
    let same : on_video_data (with_callback vt) payload t k
        ≡ (after_talk rtmp tcp sink allowed_key sockets chunks w).sink =
      sym (
        apply-append sink (before ++ config_call config ∷ middle) (data_call payload t ∷ []) w.sink)
      ∙ ap (λ cs. apply sink cs w.sink) (sym calls)
      ∙ sym (after_talk-sink rtmp tcp sink allowed_key sockets chunks w) in
    (
      read_loop-talk rtmp tcp sink allowed_key sockets chunks rest w talk,
      displayed-IsSent vt os s q good makes works attached mapped payload t k
          (after_talk rtmp tcp sink allowed_key sockets chunks w).sink shared
          (subst (IsDisplayed vt create good payload t k) same (
            calls-IsDisplayed vt create good before middle config payload t w.sink start mapping
              small)),
    )
