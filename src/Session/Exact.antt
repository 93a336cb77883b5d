-- ===== src/Session/Exact.antt =====
-- All that a session does with the results of an input which nothing fails: its calls of the socket,
-- its requests to rml_rtmp and the calls of the sink, in order.
use Prim.Native.String.{String}
use rtmp_vcam.Prelude.{
  ℕ, ◌%◌, ◌^◌, ◌≡◌, refl, ap, ◌∙◌, sym, Option, none, some, List, [], ◌∷◌, ◌++◌, ok,
}
use rtmp_vcam.Flv.{
  VideoPacket, sequence_header, nalu_data, end_of_sequence, unsupported, parse_video_data,
}
use rtmp_vcam.Flv.Exact.{parse-total}
use rtmp_vcam.Session.{
  Event, connection_requested, publish_stream_requested, video_data_received,
  stream_metadata_changed, publish_stream_finished, audio_data_received, unnamed_event,
  release_stream_requested, SessionResult, outbound_response, raised_event, unhandleable_message,
  Rtmp, Tcp, VideoSink, World, write_all, flush, write_results, accept, send_results, grant,
  deliver, handle_event, handle_results,
}
use rtmp_vcam.Session.Feed.{IsWorking, IsFine, AreFine, feed, feed_packet, feed_event}

-- The calls that write.
pub data Call : Type 0 where
  sends : List ℕ → Call
  syncs : Call

abbrev pub replay : (tcp : Tcp) → List Call → tcp.TcpStream → tcp.TcpStream
replay tcp [] s = s
replay tcp (sends bytes ∷ calls) s = replay tcp calls (tcp.send bytes s).1
replay tcp (syncs ∷ calls) s = replay tcp calls (tcp.sync s).1

pub replay-append :
    (tcp : Tcp) (xs ys : List Call) (s : tcp.TcpStream)
    → replay tcp (xs ++ ys) s ≡ replay tcp ys (replay tcp xs s)
replay-append tcp [] ys s = refl
replay-append tcp (sends bytes ∷ xs) ys s = replay-append tcp xs ys (tcp.send bytes s).1
replay-append tcp (syncs ∷ xs) ys s = replay-append tcp xs ys (tcp.sync s).1

-- The responses among the results, and a flush.
abbrev pub responses : List SessionResult → List Call
responses [] = syncs ∷ []
responses (outbound_response bytes ∷ results) = sends bytes ∷ responses results
responses (raised_event event ∷ results) = responses results
responses (unhandleable_message type_id ∷ results) = responses results

module _ (rtmp : Rtmp) where
  open rtmp use {ServerSession, accept_request}

  -- What accepting a request answers with.
  abbrev pub answers : Option (List SessionResult) → List Call
  answers none = []
  answers (some results) = responses results

  -- The request that an event leads to, if any.
  abbrev pub requested : Event → Option ℕ
  requested (connection_requested i) = some i
  requested (publish_stream_requested i key) = some i
  requested (release_stream_requested i) = some i
  requested (video_data_received bytes timestamp) = none
  requested stream_metadata_changed = none
  requested publish_stream_finished = none
  requested audio_data_received = none
  requested unnamed_event = none

  abbrev pub request_calls : Option ℕ → ServerSession → List Call
  request_calls none session = []
  request_calls (some i) session = answers (accept_request i session).0

  abbrev pub request_session : Option ℕ → ServerSession → ServerSession
  request_session none session = session
  request_session (some i) session = (accept_request i session).1

  -- The calls of the socket for results, from a session on, and the session behind them.
  abbrev pub calls : List SessionResult → ServerSession → List Call
  calls [] session = syncs ∷ []
  calls (outbound_response bytes ∷ results) session = sends bytes ∷ calls results session
  calls (raised_event event ∷ results) session =
      request_calls (requested event) session
      ++ calls results (request_session (requested event) session)
  calls (unhandleable_message type_id ∷ results) session = calls results session

  abbrev pub session_after : List SessionResult → ServerSession → ServerSession
  session_after [] session = session
  session_after (outbound_response bytes ∷ results) session = session_after results session
  session_after (raised_event event ∷ results) session =
      session_after results (request_session (requested event) session)
  session_after (unhandleable_message type_id ∷ results) session = session_after results session

module _ (rtmp : Rtmp) (tcp : Tcp) (video : VideoSink) (allowed_key : Option String)
    (works : IsWorking rtmp tcp) where
  abbrev W : Type 0
  W = World rtmp tcp video

  pub write_results_lem :
      (results : List SessionResult) (s : tcp.TcpStream)
      → write_results tcp results s ≡ (ok tt, replay tcp (responses results) s)
  unfolding write_results write_all flush
  write_results_lem [] s = rw works.syncs refl
  write_results_lem (outbound_response bytes ∷ results) s =
      rw works.sends (write_results_lem results (tcp.send bytes s).1)
  write_results_lem (raised_event event ∷ results) s = write_results_lem results s
  write_results_lem (unhandleable_message type_id ∷ results) s = write_results_lem results s

  -- The world after an event or after results.
  abbrev after_event : Event → W → W
  after_event event w = record {
    session = request_session rtmp (requested rtmp event) w.session;
    stream = replay tcp (request_calls rtmp (requested rtmp event) w.session) w.stream;
    sink = feed_event video event w.sink;
  }

  abbrev pub after_results : List SessionResult → W → W
  after_results results w = record {
    session = session_after rtmp results w.session;
    stream = replay tcp (calls rtmp results w.session) w.stream;
    sink = feed video results w.sink;
  }

  grant_lem :
      (i : ℕ) (w : W)
      → grant rtmp tcp video i w ≡ (
        ok tt,
        record w {
          session = (rtmp.accept_request i w.session).1;
          stream = replay tcp (answers rtmp (rtmp.accept_request i w.session).0) w.stream;
        },
      )
  unfolding grant accept send_results
  grant_lem i w =
      let (rs, e) = works.accepts i w.session in rw (e, write_results_lem rs w.stream) refl

  deliver_lem :
      (p : Option VideoPacket) (q : VideoPacket) (w : W)
      → p ≡ some q
      → deliver rtmp tcp video p w ≡ (ok tt, record w { sink = feed_packet video p w.sink })
  unfolding deliver
  deliver_lem none q w e = cc
  deliver_lem (some (sequence_header c)) q w e = refl
  deliver_lem (some (nalu_data b t)) q w e = refl
  deliver_lem (some end_of_sequence) q w e = refl
  deliver_lem (some unsupported) q w e = refl

  handle_event_lem :
      (event : Event) (w : W)
      → IsFine allowed_key event
      → handle_event rtmp tcp video allowed_key event w ≡ (ok tt, after_event event w)
  unfolding handle_event
  handle_event_lem (connection_requested i) w f = grant_lem i w
  handle_event_lem (publish_stream_requested i key) w f = rw f (grant_lem i w)
  handle_event_lem (video_data_received bytes timestamp) w f =
      let (q, e) = parse-total bytes (timestamp % 2 ^ 32) f in
      deliver_lem (parse_video_data bytes (timestamp % 2 ^ 32)) q w e
  handle_event_lem stream_metadata_changed w f = refl
  handle_event_lem publish_stream_finished w f = refl
  handle_event_lem audio_data_received w f = refl
  handle_event_lem unnamed_event w f = refl
  handle_event_lem (release_stream_requested i) w f = grant_lem i w

  -- With working sockets, an rml_rtmp that accepts, no wrong key and video data of bytes, handling
  -- the results of an input is exactly this: each response is written where it stands, each request
  -- is accepted where it is raised, its responses written and flushed at once, the sink gets the
  -- calls for the video data, all in order, and the stream is flushed at the end.
  pub handle_results_lem :
      (results : List SessionResult) (w : W)
      → AreFine allowed_key results
      → handle_results rtmp tcp video allowed_key results w ≡ (ok tt, after_results results w)
  unfolding handle_results flush write_all
  handle_results_lem [] w f = rw works.syncs refl
  handle_results_lem (outbound_response bytes ∷ results) w f =
      rw works.sends
        (handle_results_lem results (record w { stream = (tcp.send bytes w.stream).1 }) f)
  handle_results_lem (raised_event event ∷ results) w (fine, f) =
      rw (handle_event_lem event w fine) (
        handle_results_lem results (after_event event w) f
        ∙ ap
            (λ s. (
              ok tt,
              record {
                session = session_after rtmp (raised_event event ∷ results) w.session;
                stream = s;
                sink = feed video (raised_event event ∷ results) w.sink;
              },
            ))
            (sym (
              replay-append tcp (request_calls rtmp (requested rtmp event) w.session)
                (calls rtmp results (after_event event w).session) w.stream)))
  handle_results_lem (unhandleable_message type_id ∷ results) w f = handle_results_lem results w f
