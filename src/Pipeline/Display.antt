-- ===== src/Pipeline/Display.antt =====
-- The whole path at concrete packets, and the theorem there.
use rtmp_vcam.Prelude.{refl, arith, none, [], ◌∷◌}
use rtmp_vcam.Session.{raised_event, video_data_received, handle_results}
use rtmp_vcam.Session.Sample.{rtmp, tcp}
use rtmp_vcam.Sink.{on_decoder_config, decoder_sink}
use rtmp_vcam.Pipeline.{with_callback}
use rtmp_vcam.Pipeline.Live.{IsDisplayed, packets-IsDisplayed}
use rtmp_vcam.Pipeline.Sample.{
  vt, create, good, config, header, nalu, header-IsHeader, nalu-IsNalu, zeros, start,
}

packets-IsDisplayed_example :
    IsDisplayed vt create good
      (7 ∷ 8 ∷ [])
      40
      (on_decoder_config (with_callback vt) config start.sink)
      (handle_results rtmp tcp
        (decoder_sink (with_callback vt))
        none
        (raised_event (video_data_received header 0)
          ∷ raised_event (video_data_received nalu 40)
          ∷ [])
        start).1.sink
packets-IsDisplayed_example =
    packets-IsDisplayed vt create good rtmp tcp none header nalu 0 40 config (7 ∷ 8 ∷ []) start
      zeros (omega arith) (omega arith) header-IsHeader nalu-IsNalu refl (omega arith)
