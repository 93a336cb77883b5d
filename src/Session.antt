-- ===== src/Session.antt =====
-- crates/rtmp-server/src/session.rs: one publishing session, over rml_rtmp's ServerSession and a
-- stream of tokio. Log lines are left out, and so are the fields of events that are only logged.
pub mod Keys
pub mod Order
pub mod Exact
pub mod Calls
pub mod Feed
pub mod Sample
mod Tests
use text.Mathlib.Text.{◌==◌ as str_eq}
use Prim.Native.String.{String}
use rtmp_vcam.Prelude.{
  ℕ, ◌%◌, ◌^◌, Bool, true, false, Option, none, some, List, [], ◌∷◌, Result, ok, err, if◌then◌else◌,
}
use rtmp_vcam.Flv.{
  AvcDecoderConfig, VideoPacket, sequence_header, nalu_data, end_of_sequence, unsupported,
  parse_video_data,
}
use rtmp_vcam.Io.{
  IoError, permission_denied, invalid_data, other, transport, panicked, Io, ◌>>=◌, ◌>>◌, pure, fail,
}

-- `ServerSessionEvent`, with a constructor for each event that the program names.
pub data Event : Type 0 where
  connection_requested : (request_id : ℕ) → Event
  publish_stream_requested : (request_id : ℕ) (stream_key : String) → Event
  video_data_received : (bytes : List ℕ) (timestamp : ℕ) → Event
  stream_metadata_changed publish_stream_finished audio_data_received unnamed_event : Event
  release_stream_requested : (request_id : ℕ) → Event

-- `ServerSessionResult`
pub data SessionResult : Type 0 where
  outbound_response : List ℕ → SessionResult
  raised_event : Event → SessionResult
  unhandleable_message : ℕ → SessionResult

-- The calls of rml_rtmp's `ServerSession`. `none` is its error.
pub record Rtmp : Type 1 where
  pub ServerSession : Type 0
  pub create : Option (ServerSession × List SessionResult)
  pub take_input : List ℕ → ServerSession → Option (List SessionResult) × ServerSession
  pub accept_request : ℕ → ServerSession → Option (List SessionResult) × ServerSession

-- The calls of tokio's `TcpStream` that write. `false` is an error of the socket.
pub record Tcp : Type 1 where
  pub TcpStream : Type 0
  pub send : List ℕ → TcpStream → Bool × TcpStream
  pub sync : TcpStream → Bool × TcpStream

-- `trait VideoSink`
pub record VideoSink : Type 1 where
  pub Sink : Type 0
  pub on_decoder_config : AvcDecoderConfig → Sink → Sink
  pub on_video_data : List ℕ → ℕ → Sink → Sink

-- What one session works on.
pub record World (rtmp : Rtmp) (tcp : Tcp) (video : VideoSink) : Type 0 where
  pub session : rtmp.ServerSession
  pub stream : tcp.TcpStream
  pub sink : video.Sink

abbrev socket : {S : Type 0} → Bool × S → Result IoError (Unit {0}) × S
socket (done, s) = (if done then ok tt else err transport, s)

-- Writing results to a stream.
module _ (tcp : Tcp) where
  open tcp use {TcpStream, send, sync}

  -- `stream.write_all(bytes).await?`
  unfoldable pub write_all : List ℕ → Io TcpStream (Unit {0})
  write_all bytes s = socket (send bytes s)

  -- `stream.flush().await?`
  unfoldable pub flush : Io TcpStream (Unit {0})
  flush s = socket (sync s)

  unfoldable pub write_results : List SessionResult → Io TcpStream (Unit {0})
  write_results [] = flush
  write_results (outbound_response bytes ∷ results) = do write_all bytes; write_results results
  write_results (raised_event event ∷ results) = write_results results
  write_results (unhandleable_message type_id ∷ results) = write_results results

-- `RtmpSession::new`
module _ (rtmp : Rtmp) (tcp : Tcp) where
  open rtmp use {ServerSession, create}
  open tcp use {TcpStream}

  unfoldable pub new : Io TcpStream ServerSession
  new = elim create [
    | none ↦ fail other
    | some (session, initial) ↦ do write_results tcp initial; pure session
  ]

-- The stream key is wanted and is another.
abbrev pub refuses : Option String → String → Bool
refuses none stream_key = false
refuses (some expected) stream_key = if str_eq stream_key expected then false else true

module _ (rtmp : Rtmp) (tcp : Tcp) (video : VideoSink) where
  open rtmp use {take_input, accept_request}
  open tcp use {TcpStream}
  open video use {on_decoder_config, on_video_data}

  abbrev pub W : Type 0
  W = World rtmp tcp video

  -- An action on the stream alone.
  abbrev pub on_stream : Io TcpStream (Unit {0}) → Io W (Unit {0})
  on_stream m w = let (r, s) = m w.stream in (r, record w { stream = s })

  unfoldable pub accept : ℕ → Io W (List SessionResult)
  accept request_id w =
      let (answer, session) = accept_request request_id w.session in
      (elim answer [ none ↦ err other | some results ↦ ok results ], record w { session = session })

  unfoldable pub send_results : List SessionResult → Io W (Unit {0})
  send_results results = on_stream (write_results tcp results)

  -- `let results = self.accept(request_id)?; self.send_results(results, stream).await?;`
  unfoldable pub grant : ℕ → Io W (Unit {0})
  grant request_id = do results ← accept request_id; send_results results

  unfoldable pub deliver : Option VideoPacket → Io W (Unit {0})
  deliver none w = (err panicked, w)
  deliver (some (sequence_header config)) w =
      (ok tt, record w { sink = on_decoder_config config w.sink })
  deliver (some (nalu_data payload timestamp)) w =
      (ok tt, record w { sink = on_video_data payload timestamp w.sink })
  deliver (some end_of_sequence) w = (ok tt, w)
  deliver (some unsupported) w = (ok tt, w)

  unfoldable pub handle_event : Option String → Event → Io W (Unit {0})
  handle_event allowed_key (connection_requested request_id) = grant request_id
  handle_event allowed_key (publish_stream_requested request_id stream_key) =
      if refuses allowed_key stream_key then fail permission_denied else grant request_id
  handle_event allowed_key (video_data_received bytes timestamp) =
      deliver (parse_video_data bytes (timestamp % 2 ^ 32))
  handle_event allowed_key (release_stream_requested request_id) = grant request_id
  handle_event allowed_key stream_metadata_changed = pure tt
  handle_event allowed_key publish_stream_finished = pure tt
  handle_event allowed_key audio_data_received = pure tt
  handle_event allowed_key unnamed_event = pure tt

  -- The loop over the results, and the flush behind it.
  unfoldable pub handle_results : Option String → List SessionResult → Io W (Unit {0})
  handle_results allowed_key [] = on_stream (flush tcp)
  handle_results allowed_key (outbound_response bytes ∷ results) = do
    on_stream (write_all tcp bytes)
    handle_results allowed_key results
  handle_results allowed_key (raised_event event ∷ results) = do
    handle_event allowed_key event
    handle_results allowed_key results
  handle_results allowed_key (unhandleable_message type_id ∷ results) =
      handle_results allowed_key results

  -- What rml_rtmp answered to the input: its error, or results to handle.
  unfoldable pub handle_answer : Option String → Option (List SessionResult) → Io W (Unit {0})
  handle_answer allowed_key none = fail invalid_data
  handle_answer allowed_key (some results) = handle_results allowed_key results

  unfoldable pub handle_input : Option String → List ℕ → Io W (Unit {0})
  unfolding handle_answer
  handle_input allowed_key input w =
      let (answer, session) = take_input input w.session in
      handle_answer allowed_key answer (record w { session = session })
