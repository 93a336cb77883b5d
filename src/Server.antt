-- ===== src/Server.antt =====
-- crates/rtmp-server/src/server.rs: one connection, from its first read to its end.
-- What the socket gives is the list of what successive calls of `read` return; when the list ends,
-- the task waits in `read`. A read of no bytes is the end of the input. A write or a flush answers, by
-- success or by an error: one that pends for ever, since the peer does not read, is not an ending here.
pub mod Ends
mod Full
pub mod Run
pub mod Sinks
pub mod Talk
pub mod Whole
mod Tests
use Prim.Native.String.{String}
use rtmp_vcam.Prelude.{
  ℕ, Bool, true, false, Option, none, some, List, [], ◌∷◌, Result, ok, err, if◌then◌else◌,
}
use rtmp_vcam.Io.{IoError, unexpected_eof, transport, Io, ◌>>=◌, ◌>>◌, pure, fail}
use rtmp_vcam.Handshake
use rtmp_vcam.Handshake.{Rml, HandshakeState, process}
use rtmp_vcam.Session
use rtmp_vcam.Session.{Rtmp, Tcp, VideoSink, World, write_all, flush, handle_input}

-- What `stream.read(&mut buf).await` returns: `none` is an error of the socket.
abbrev pub Read : Type 0
Read = Option (List ℕ)

abbrev pub is_empty : List ℕ → Bool
is_empty [] = true
is_empty (x ∷ xs) = false

-- How a task stands that has not failed: it waits in `read`, or it has returned.
pub data Ending : Type 0 where
  waits closed : Ending

abbrev pub lift : {S A : Type 0} → Result IoError A → Io S A
lift r s = (r, s)

-- Phase 1
module _ (rml : Rml) (tcp : Tcp) where
  open tcp use {TcpStream}

  -- `if !response.is_empty() { stream.write_all(&response).await?; stream.flush().await?; }`
  pub respond : List ℕ → Io TcpStream (Unit {0})
  respond response = if is_empty response then pure tt else (write_all tcp response >> flush tcp)

  -- The phase breaks off with the bytes behind the handshake, or goes round again.
  pub proceed :
      Option (List ℕ)
      → List Read
      → Io TcpStream (Option (List ℕ × List Read))
      → Io TcpStream (Option (List ℕ × List Read))
  proceed none reads again = again
  proceed (some remaining) reads again = pure (some (remaining, reads))

  -- `none` is a task that waits; else the bytes behind the handshake and the reads that are left.
  pub shake : HandshakeState rml → List Read → Io TcpStream (Option (List ℕ × List Read))
  shake h [] = pure none
  shake h (none ∷ reads) = fail transport
  shake h (some [] ∷ reads) = fail unexpected_eof
  shake h (some (x ∷ xs) ∷ reads) =
      let (r, h') = process rml (x ∷ xs) h in
      do
        (response, maybe_remaining) ← lift r
        respond response
        proceed maybe_remaining reads (shake h' reads)

-- Phase 2
module _ (rtmp : Rtmp) (tcp : Tcp) (video : VideoSink) (stream_key : Option String) where
  -- The main read loop.
  pub read_loop : List Read → Io (World rtmp tcp video) Ending
  read_loop [] = pure waits
  read_loop (none ∷ reads) = fail transport
  read_loop (some [] ∷ reads) = pure closed
  read_loop (some (x ∷ xs) ∷ reads) = do
    handle_input rtmp tcp video stream_key (x ∷ xs)
    read_loop reads

  -- The bytes that came behind the handshake, and the loop.
  pub serve : List ℕ → List Read → Io (World rtmp tcp video) Ending
  serve remaining reads = do
    if is_empty remaining then pure tt else handle_input rtmp tcp video stream_key remaining
    read_loop reads

-- What a connection leaves: its result, its stream and its sink.
pub record Outcome (tcp : Tcp) (video : VideoSink) : Type 0 where
  pub result : Result IoError Ending
  pub stream : tcp.TcpStream
  pub sink : video.Sink

module _ (rml : Rml) (rtmp : Rtmp) (tcp : Tcp) (video : VideoSink)
    (stream_key : Option String) where
  open tcp use {TcpStream}
  open video use {Sink}

  pub with_session :
      Result IoError rtmp.ServerSession → List ℕ → List Read → TcpStream → Sink → Outcome tcp video
  with_session (err e) remaining reads s sink = record { result = err e; stream = s; sink = sink }
  with_session (ok session) remaining reads s sink =
      let (r, w) =
        serve rtmp tcp video stream_key remaining reads
          (record { session = session; stream = s; sink = sink }) in
      record { result = r; stream = w.stream; sink = w.sink }

  pub after_shake :
      Result IoError (Option (List ℕ × List Read)) → TcpStream → Sink → Outcome tcp video
  after_shake (err e) s sink = record { result = err e; stream = s; sink = sink }
  after_shake (ok none) s sink = record { result = ok waits; stream = s; sink = sink }
  after_shake (ok (some (remaining, reads))) s sink =
      let (r, s') = Session.new rtmp tcp s in with_session r remaining reads s' sink

  pub handle_connection : List Read → TcpStream → Sink → Outcome tcp video
  unfolding after_shake with_session
  handle_connection reads stream sink =
      let (r, s) = shake rml tcp (Handshake.new rml) reads stream in after_shake r s sink
