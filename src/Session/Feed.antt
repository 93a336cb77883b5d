-- ===== src/Session/Feed.antt =====
-- What the sink of a session gets, and that a session which nothing fails handles all its results.
use Prim.Native.String.{String}
use rtmp_vcam.Prelude.{
  ℕ, ◌%◌, ◌^◌, ◌≡◌, refl, ap, ◌∙◌, inl, inr, true, false, Bool-cases, Option, none, some, List, [],
  ◌∷◌, Result, ok, err, AreBytes,
}
use rtmp_vcam.Flv.{
  VideoPacket, sequence_header, nalu_data, end_of_sequence, unsupported, parse_video_data,
}
use rtmp_vcam.Flv.Exact.{parse-total}
use rtmp_vcam.Io.{IoError, Io, and_then}
use rtmp_vcam.Session.{
  Event, connection_requested, publish_stream_requested, video_data_received,
  stream_metadata_changed, publish_stream_finished, audio_data_received, unnamed_event,
  release_stream_requested, SessionResult, outbound_response, raised_event, unhandleable_message,
  Rtmp, Tcp, VideoSink, World, write_all, flush, write_results, on_stream, accept, send_results,
  grant, refuses, deliver, handle_event, handle_results,
}
use rtmp_vcam.Session.Keys.{grant-sink}

module _ (video : VideoSink) where
  open video use {Sink, on_decoder_config, on_video_data}

  -- The one call of the sink that a packet makes, if any.
  abbrev pub feed_packet : Option VideoPacket → Sink → Sink
  feed_packet (some (sequence_header config)) k = on_decoder_config config k
  feed_packet (some (nalu_data payload timestamp)) k = on_video_data payload timestamp k
  feed_packet (some end_of_sequence) k = k
  feed_packet (some unsupported) k = k
  feed_packet none k = k

  abbrev pub feed_event : Event → Sink → Sink
  feed_event (video_data_received bytes timestamp) k =
      feed_packet (parse_video_data bytes (timestamp % 2 ^ 32)) k
  feed_event (connection_requested i) k = k
  feed_event (publish_stream_requested i key) k = k
  feed_event (release_stream_requested i) k = k
  feed_event stream_metadata_changed k = k
  feed_event publish_stream_finished k = k
  feed_event audio_data_received k = k
  feed_event unnamed_event k = k

  -- The calls of the video data among the results, in order.
  abbrev pub feed : List SessionResult → Sink → Sink
  feed [] k = k
  feed (raised_event event ∷ results) k = feed results (feed_event event k)
  feed (outbound_response bytes ∷ results) k = feed results k
  feed (unhandleable_message type_id ∷ results) k = feed results k

-- The sockets take what is written and rml_rtmp accepts the requests.
pub record IsWorking (rtmp : Rtmp) (tcp : Tcp) : Type 0 where
  pub sends : (bytes : List ℕ) (s : tcp.TcpStream) → (tcp.send bytes s).0 ≡ true
  pub syncs : (s : tcp.TcpStream) → (tcp.sync s).0 ≡ true
  pub accepts :
      (i : ℕ) (s : rtmp.ServerSession)
      → (rs : List SessionResult) × ((rtmp.accept_request i s).0 ≡ some rs)

-- No request to publish has a wrong key, and video data are bytes.
abbrev pub IsFine : Option String → Event → Type 0
IsFine allowed_key (publish_stream_requested i key) = refuses allowed_key key ≡ false
IsFine allowed_key (video_data_received bytes timestamp) = AreBytes bytes
IsFine allowed_key (connection_requested i) = Unit
IsFine allowed_key (release_stream_requested i) = Unit
IsFine allowed_key stream_metadata_changed = Unit
IsFine allowed_key publish_stream_finished = Unit
IsFine allowed_key audio_data_received = Unit
IsFine allowed_key unnamed_event = Unit

abbrev pub AreFine : Option String → List SessionResult → Type 0
AreFine allowed_key [] = Unit
AreFine allowed_key (raised_event event ∷ results) =
    IsFine allowed_key event × AreFine allowed_key results
AreFine allowed_key (outbound_response bytes ∷ results) = AreFine allowed_key results
AreFine allowed_key (unhandleable_message type_id ∷ results) = AreFine allowed_key results

module _ (rtmp : Rtmp) (tcp : Tcp) (video : VideoSink) (allowed_key : Option String) where
  abbrev W : Type 0
  W = World rtmp tcp video

  deliver-sink :
      (p : Option VideoPacket) (w : W)
      → (deliver rtmp tcp video p w).1.sink ≡ feed_packet video p w.sink
  unfolding deliver
  deliver-sink none w = refl
  deliver-sink (some (sequence_header c)) w = refl
  deliver-sink (some (nalu_data b t)) w = refl
  deliver-sink (some end_of_sequence) w = refl
  deliver-sink (some unsupported) w = refl

  event-sink :
      (event : Event) (w : W)
      → (handle_event rtmp tcp video allowed_key event w).1.sink ≡ feed_event video event w.sink
  unfolding handle_event
  event-sink (connection_requested i) w = grant-sink rtmp tcp video i w
  event-sink (publish_stream_requested i key) w = elim (Bool-cases (refuses allowed_key key)) [
    | inl refused ↦ rw refused refl
    | inr fits ↦ rw fits (grant-sink rtmp tcp video i w)
  ]
  event-sink (video_data_received bytes timestamp) w =
      deliver-sink (parse_video_data bytes (timestamp % 2 ^ 32)) w
  event-sink stream_metadata_changed w = refl
  event-sink publish_stream_finished w = refl
  event-sink audio_data_received w = refl
  event-sink unnamed_event w = refl
  event-sink (release_stream_requested i) w = grant-sink rtmp tcp video i w

  after-sink :
      (r : Result IoError (Unit {0})) (k : Io W (Unit {0})) (f : video.Sink → video.Sink) (v : W)
      → ((v : W) → (k v).0 ≡ ok tt → (k v).1.sink ≡ f v.sink)
      → (and_then r (λ _. k) v).0 ≡ ok tt
      → (and_then r (λ _. k) v).1.sink ≡ f v.sink
  after-sink (ok u) k f v h e = h v e
  after-sink (err x) k f v h e = cc

  -- Where the results of one input are handled without an error, the sink has got the calls for
  -- their video data, all of them, in order and no other.
  pub sink-handle_results :
      (results : List SessionResult) (w : W)
      → (handle_results rtmp tcp video allowed_key results w).0 ≡ ok tt
      → (handle_results rtmp tcp video allowed_key results w).1.sink ≡ feed video results w.sink
  unfolding handle_results
  sink-handle_results [] w e = refl
  sink-handle_results (outbound_response bytes ∷ results) w e =
      let (r, v) = on_stream rtmp tcp video (write_all tcp bytes) w in
      after-sink r (handle_results rtmp tcp video allowed_key results) (feed video results) v
        (sink-handle_results results) e
  sink-handle_results (raised_event event ∷ results) w e =
      let (r, v) = handle_event rtmp tcp video allowed_key event w in
      after-sink r (handle_results rtmp tcp video allowed_key results) (feed video results) v
        (sink-handle_results results) e
      ∙ ap (feed video results) (event-sink event w)
  sink-handle_results (unhandleable_message type_id ∷ results) w e = sink-handle_results results w e

  module _ (works : IsWorking rtmp tcp) where
    write_results-ok :
        (results : List SessionResult) (s : tcp.TcpStream) → (write_results tcp results s).0 ≡ ok tt
    unfolding write_results write_all flush
    write_results-ok [] s = rw works.syncs refl
    write_results-ok (outbound_response bytes ∷ results) s =
        rw works.sends (write_results-ok results (tcp.send bytes s).1)
    write_results-ok (raised_event event ∷ results) s = write_results-ok results s
    write_results-ok (unhandleable_message type_id ∷ results) s = write_results-ok results s

    grant-ok : (i : ℕ) (w : W) → (grant rtmp tcp video i w).0 ≡ ok tt
    unfolding grant accept send_results
    grant-ok i w = let (rs, e) = works.accepts i w.session in rw e (write_results-ok rs w.stream)

    deliver-ok :
        (p : Option VideoPacket) (q : VideoPacket) (w : W)
        → p ≡ some q
        → (deliver rtmp tcp video p w).0 ≡ ok tt
    unfolding deliver
    deliver-ok none q w e = cc
    deliver-ok (some (sequence_header c)) q w e = refl
    deliver-ok (some (nalu_data b t)) q w e = refl
    deliver-ok (some end_of_sequence) q w e = refl
    deliver-ok (some unsupported) q w e = refl

    event-ok :
        (event : Event) (w : W)
        → IsFine allowed_key event
        → (handle_event rtmp tcp video allowed_key event w).0 ≡ ok tt
    unfolding handle_event
    event-ok (connection_requested i) w f = grant-ok i w
    event-ok (publish_stream_requested i key) w f = rw f (grant-ok i w)
    event-ok (video_data_received bytes timestamp) w f =
        let (q, e) = parse-total bytes (timestamp % 2 ^ 32) f in
        deliver-ok (parse_video_data bytes (timestamp % 2 ^ 32)) q w e
    event-ok stream_metadata_changed w f = refl
    event-ok publish_stream_finished w f = refl
    event-ok audio_data_received w f = refl
    event-ok unnamed_event w f = refl
    event-ok (release_stream_requested i) w f = grant-ok i w

    handle_results-ok :
        (results : List SessionResult) (w : W)
        → AreFine allowed_key results
        → (handle_results rtmp tcp video allowed_key results w).0 ≡ ok tt
    unfolding handle_results flush write_all
    handle_results-ok [] w f = rw works.syncs refl
    handle_results-ok (outbound_response bytes ∷ results) w f =
        rw works.sends
          (handle_results-ok results (record w { stream = (tcp.send bytes w.stream).1 }) f)
    handle_results-ok (raised_event event ∷ results) w f =
        rw (event-ok event w f.0)
          (handle_results-ok results (handle_event rtmp tcp video allowed_key event w).1 f.1)
    handle_results-ok (unhandleable_message type_id ∷ results) w f = handle_results-ok results w f

    -- With working sockets, an rml_rtmp that accepts, no wrong key and video data of bytes, the
    -- results of an input are handled to the end, and the sink gets the calls for their video data,
    -- all of them, in order.
    pub handle_results-delivers :
        (results : List SessionResult) (w : W)
        → AreFine allowed_key results
        → ((handle_results rtmp tcp video allowed_key results w).0 ≡ ok tt)
          × ((handle_results rtmp tcp video allowed_key results w).1.sink
              ≡ feed video results w.sink)
    handle_results-delivers results w f = (
      handle_results-ok results w f,
      sink-handle_results results w (handle_results-ok results w f),
    )
