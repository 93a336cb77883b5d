-- ===== src/Server/Sinks.antt =====
-- What holds of a sink before and after each of its calls holds over sessions and connections.
use Prim.Native.String.{String}
use rtmp_vcam.Prelude.{
  ℕ, ◌%◌, ◌^◌, sym, subst, Bool-cases, inl, inr, Option, none, some, List, [], ◌∷◌, Result, ok, err,
}
use rtmp_vcam.Flv.{
  AvcDecoderConfig, VideoPacket, sequence_header, nalu_data, end_of_sequence, unsupported,
  parse_video_data,
}
use rtmp_vcam.Io.{IoError, Io, and_then, ◌>>◌}
use rtmp_vcam.Handshake
use rtmp_vcam.Handshake.{Rml}
use rtmp_vcam.Session
use rtmp_vcam.Session.{
  Event, connection_requested, publish_stream_requested, video_data_received,
  stream_metadata_changed, publish_stream_finished, audio_data_received, unnamed_event,
  release_stream_requested, SessionResult, outbound_response, raised_event, unhandleable_message,
  Rtmp, Tcp, VideoSink, World, write_all, on_stream, refuses, deliver, grant, handle_event,
  handle_results, handle_answer, handle_input,
}
use rtmp_vcam.Session.Keys.{grant-sink}
use rtmp_vcam.Server.{Read, shake, read_loop, serve, with_session, after_shake, handle_connection}

module _ (rtmp : Rtmp) (tcp : Tcp) (video : VideoSink) (stream_key : Option String)
    (P : video.Sink → Type 0)
    (on_config : (c : AvcDecoderConfig) (k : video.Sink) → P k → P (video.on_decoder_config c k))
    (on_data : (bytes : List ℕ) (t : ℕ) (k : video.Sink)
      → P k
      → P (video.on_video_data bytes t k)) where
  abbrev W : Type 0
  W = World rtmp tcp video

  abbrev Keeps : {A : Type 0} → Io W A → Type 0
  Keeps m = (w : W) → P w.sink → P (m w).1.sink

  and_then-Keeps :
      {A : Type 0} (r : Result IoError (Unit {0})) (k : Io W A) (w : W)
      → Keeps k
      → P w.sink
      → P (and_then r (λ _. k) w).1.sink
  and_then-Keeps (ok u) k w h q = h w q
  and_then-Keeps (err e) k w h q = q

  bind-Keeps : {A : Type 0} (m : Io W (Unit {0})) (k : Io W A) → Keeps m → Keeps k → Keeps (m >> k)
  bind-Keeps m k hm hk w q = let (r, v) = m w in and_then-Keeps r k v hk (hm w q)

  deliver-Keeps : (packet : Option VideoPacket) → Keeps (deliver rtmp tcp video packet)
  unfolding deliver
  deliver-Keeps none w q = q
  deliver-Keeps (some (sequence_header config)) w q = on_config config w.sink q
  deliver-Keeps (some (nalu_data payload t)) w q = on_data payload t w.sink q
  deliver-Keeps (some end_of_sequence) w q = q
  deliver-Keeps (some unsupported) w q = q

  grant-Keeps : (i : ℕ) → Keeps (grant rtmp tcp video i)
  grant-Keeps i w q = subst P (sym (grant-sink rtmp tcp video i w)) q

  event-Keeps : (event : Event) → Keeps (handle_event rtmp tcp video stream_key event)
  unfolding handle_event
  event-Keeps (connection_requested i) w q = grant-Keeps i w q
  event-Keeps (publish_stream_requested i key) w q = elim (Bool-cases (refuses stream_key key)) [
    | inl refused ↦ rw refused q
    | inr fits ↦ rw fits (grant-Keeps i w q)
  ]
  event-Keeps (video_data_received bytes t) w q =
      deliver-Keeps (parse_video_data bytes (t % 2 ^ 32)) w q
  event-Keeps stream_metadata_changed w q = q
  event-Keeps publish_stream_finished w q = q
  event-Keeps audio_data_received w q = q
  event-Keeps unnamed_event w q = q
  event-Keeps (release_stream_requested i) w q = grant-Keeps i w q

  results-Keeps :
      (results : List SessionResult) → Keeps (handle_results rtmp tcp video stream_key results)
  unfolding handle_results
  results-Keeps [] w q = q
  results-Keeps (outbound_response bytes ∷ results) w q =
      bind-Keeps (on_stream rtmp tcp video (write_all tcp bytes))
        (handle_results rtmp tcp video stream_key results) (λ v h. h) (results-Keeps results) w q
  results-Keeps (raised_event event ∷ results) w q =
      bind-Keeps (handle_event rtmp tcp video stream_key event)
        (handle_results rtmp tcp video stream_key results) (event-Keeps event)
        (results-Keeps results) w q
  results-Keeps (unhandleable_message i ∷ results) w q = results-Keeps results w q

  answer-Keeps :
      (answer : Option (List SessionResult))
      → Keeps (handle_answer rtmp tcp video stream_key answer)
  unfolding handle_answer
  answer-Keeps none w q = q
  answer-Keeps (some results) w q = results-Keeps results w q

  input-Keeps : (input : List ℕ) → Keeps (handle_input rtmp tcp video stream_key input)
  unfolding handle_input
  input-Keeps input w q =
      let (answer, session) = rtmp.take_input input w.session in
      answer-Keeps answer (record w { session = session }) q

  read_loop-Keeps : (reads : List Read) → Keeps (read_loop rtmp tcp video stream_key reads)
  unfolding read_loop
  read_loop-Keeps [] w q = q
  read_loop-Keeps (none ∷ reads) w q = q
  read_loop-Keeps (some [] ∷ reads) w q = q
  read_loop-Keeps (some (x ∷ xs) ∷ reads) w q =
      bind-Keeps (handle_input rtmp tcp video stream_key (x ∷ xs))
        (read_loop rtmp tcp video stream_key reads) (input-Keeps (x ∷ xs)) (read_loop-Keeps reads) w
        q

  serve-Keeps :
      (remaining : List ℕ) (reads : List Read)
      → Keeps (serve rtmp tcp video stream_key remaining reads)
  unfolding serve
  serve-Keeps [] reads w q = read_loop-Keeps reads w q
  serve-Keeps (x ∷ xs) reads w q =
      bind-Keeps (handle_input rtmp tcp video stream_key (x ∷ xs))
        (read_loop rtmp tcp video stream_key reads) (input-Keeps (x ∷ xs)) (read_loop-Keeps reads) w
        q

  module _ (rml : Rml) where
    session-Keeps :
        (r : Result IoError rtmp.ServerSession) (remaining : List ℕ) (reads : List Read)
        (s : tcp.TcpStream) (sink : video.Sink)
        → P sink
        → P (with_session rml rtmp tcp video stream_key r remaining reads s sink).sink
    unfolding with_session
    session-Keeps (err e) remaining reads s sink q = q
    session-Keeps (ok session) remaining reads s sink q =
        serve-Keeps remaining reads (record { session = session; stream = s; sink = sink }) q

    after_shake-Keeps :
        (r : Result IoError (Option (List ℕ × List Read))) (s : tcp.TcpStream) (sink : video.Sink)
        → P sink
        → P (after_shake rml rtmp tcp video stream_key r s sink).sink
    unfolding after_shake
    after_shake-Keeps (err e) s sink q = q
    after_shake-Keeps (ok none) s sink q = q
    after_shake-Keeps (ok (some (remaining, reads))) s sink q =
        let (r, t) = Session.new rtmp tcp s in session-Keeps r remaining reads t sink q

-- A connection keeps what each of the two calls of its sink keeps, however it ends.
pub handle_connection-Keeps :
    (rml : Rml) (rtmp : Rtmp) (tcp : Tcp) (video : VideoSink) (stream_key : Option String)
    (P : video.Sink → Type 0)
    → ((c : AvcDecoderConfig) (k : video.Sink) → P k → P (video.on_decoder_config c k))
    → ((bytes : List ℕ) (t : ℕ) (k : video.Sink) → P k → P (video.on_video_data bytes t k))
    → (reads : List Read) (s : tcp.TcpStream) (sink : video.Sink) → P sink
    → P (handle_connection rml rtmp tcp video stream_key reads s sink).sink
unfolding handle_connection
handle_connection-Keeps rml rtmp tcp video stream_key P on_config on_data reads s sink q =
    let (r, t) = shake rml tcp (Handshake.new rml) reads s in
    after_shake-Keeps rtmp tcp video stream_key P on_config on_data rml r t sink q
