-- ===== src/Session/Tests.antt =====
-- A session over the stand-ins, and its theorems there.
use rtmp_vcam.Prelude.{◌≡◌, refl, some, List, [], ◌∷◌, ok, err, arith}
use rtmp_vcam.Flv.{index, slice_from, parse_avc, parse_nalu_data, parse_video_data}
use rtmp_vcam.Io.{permission_denied, ◌>>◌, fail}
use rtmp_vcam.Session.{
  connection_requested, publish_stream_requested, video_data_received, SessionResult,
  outbound_response, raised_event, write_all, flush, write_results, accept, send_results, grant,
  deliver, handle_event, handle_results,
}
use rtmp_vcam.Session.Order.{handle_each, handle_results_refused}
use rtmp_vcam.Session.Feed.{feed, AreFine, sink-handle_results}
use rtmp_vcam.Session.Exact.{after_results, handle_results_lem}
use rtmp_vcam.Session.Sample.{rtmp, tcp, video, start, works}

abbrev wrong : List SessionResult
wrong =
    raised_event (connection_requested 1)
    ∷ raised_event (publish_stream_requested 3 "bad")
    ∷ raised_event (connection_requested 4)
    ∷ []

-- The connection is accepted, the request to publish is not, and nothing behind it is handled.
rejects :
    handle_results rtmp tcp video (some "good") wrong start
    ≡ (err permission_denied, record { session = 1 ∷ []; stream = 1 ∷ []; sink = [] })
unfolding handle_results handle_event grant accept send_results write_results write_all flush
rejects = refl

abbrev frame : List SessionResult
frame =
    outbound_response (7 ∷ [])
    ∷ raised_event (publish_stream_requested 2 "good")
    ∷ raised_event (video_data_received (0x27 ∷ 1 ∷ 0 ∷ 0 ∷ 0 ∷ 9 ∷ []) 40)
    ∷ []

accepts :
    handle_results rtmp tcp video (some "good") frame start
    ≡ (ok tt, record { session = 2 ∷ []; stream = 7 ∷ 2 ∷ []; sink = (40 ∷ 9 ∷ []) ∷ [] })
unfolding handle_results handle_event grant accept send_results write_results write_all flush
    deliver parse_video_data index parse_avc parse_nalu_data slice_from
accepts = refl

handle_results_refused_example :
    handle_results rtmp tcp video (some "good") wrong start
    ≡ (handle_each rtmp tcp video (some "good") (raised_event (connection_requested 1) ∷ [])
          >> fail permission_denied)
        start
handle_results_refused_example =
    handle_results_refused rtmp tcp video (some "good") (raised_event (connection_requested 1) ∷ [])
      (raised_event (connection_requested 4) ∷ []) 3 "bad" start refl

frame-ok : (handle_results rtmp tcp video (some "good") frame start).0 ≡ ok tt
unfolding handle_results handle_event grant accept send_results write_results write_all flush
    deliver parse_video_data index parse_avc parse_nalu_data slice_from
frame-ok = refl

sink-handle_results_example :
    (handle_results rtmp tcp video (some "good") frame start).1.sink ≡ feed video frame []
sink-handle_results_example = sink-handle_results rtmp tcp video (some "good") frame start frame-ok

frame_fine : AreFine (some "good") frame
frame_fine = (refl, (omega arith, tt))

handle_results_lem_example :
    handle_results rtmp tcp video (some "good") frame start
    ≡ (ok tt, after_results rtmp tcp video (some "good") works frame start)
handle_results_lem_example =
    handle_results_lem rtmp tcp video (some "good") works frame start frame_fine
