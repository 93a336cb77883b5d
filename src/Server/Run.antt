-- ===== src/Server/Run.antt =====
-- server.rs: `run`, the loop that accepts connections and spawns a task for each.
-- What `accept` gives is the list of what its successive calls return; when the list ends, the
-- server waits. A task is independent of the loop, and what is left of it is its outcome. `n`
-- counts the calls of `sink_factory`, which may return any sinks: the memory that the sinks of the
-- application share is, in a sink's value, as its task finds it, and what tasks that write it at
-- the same time do to each other is not seen here but in Writers.antt. The lines that a task logs
-- at its end are kept, since they depend on the kind of its error; an error of the socket itself
-- is taken to be of another kind than PermissionDenied.
use Prim.Native.String.{String}
use rtmp_vcam.Prelude.{
  ℕ, ◌+◌, Bool, true, false, Option, none, some, List, [], ◌∷◌, Result, ok, err,
}
use rtmp_vcam.Io.{
  IoError, permission_denied, invalid_data, unexpected_eof, other, transport, panicked,
}
use rtmp_vcam.Handshake.{Rml}
use rtmp_vcam.Session.{Rtmp, Tcp, VideoSink}
use rtmp_vcam.Server.{Read, Ending, waits, closed, Outcome, handle_connection}

-- A line of the log.
pub data Line : Type 0 where
  connection_rejected connection_error connection_closed : Line

-- What a task logs at its end.
unfoldable pub lines : Result IoError Ending → List Line
lines (ok waits) = []
lines (ok closed) = connection_closed ∷ []
lines (err permission_denied) = connection_rejected ∷ connection_closed ∷ []
lines (err panicked) = []
lines (err invalid_data) = connection_error ∷ connection_closed ∷ []
lines (err unexpected_eof) = connection_error ∷ connection_closed ∷ []
lines (err other) = connection_error ∷ connection_closed ∷ []
lines (err transport) = connection_error ∷ connection_closed ∷ []

module _ (rml : Rml) (rtmp : Rtmp) (tcp : Tcp) (video : VideoSink) where
  -- A spawned task: its outcome and what it logs.
  pub record Task : Type 0 where
    pub outcome : Outcome tcp video
    pub log : List Line

  -- What `accept` returns: a stream and what its reads will return, or an error.
  abbrev pub Accepted : Type 0
  Accepted = Option (tcp.TcpStream × List Read)

  unfoldable pub spawn : video.Sink → Option String → tcp.TcpStream → List Read → Task
  spawn sink key stream reads =
      let outcome = handle_connection rml rtmp tcp video key reads stream sink in
      record { outcome = outcome; log = lines outcome.result }

  unfoldable pub accept_loop :
      (ℕ → video.Sink) → Option String → ℕ → List Accepted → Result IoError Ending × List Task
  accept_loop sink_factory stream_key n [] = (ok waits, [])
  accept_loop sink_factory stream_key n (none ∷ accepts) = (err transport, [])
  accept_loop sink_factory stream_key n (some (stream, reads) ∷ accepts) =
      let (r, tasks) = accept_loop sink_factory stream_key (n + 1) accepts in
      (r, spawn (sink_factory n) stream_key stream reads ∷ tasks)

  -- `bound` is whether the listener is bound.
  unfoldable pub run :
      Bool → (ℕ → video.Sink) → Option String → List Accepted → Result IoError Ending × List Task
  unfolding accept_loop
  run false sink_factory stream_key accepts = (err transport, [])
  run true sink_factory stream_key accepts = accept_loop sink_factory stream_key 0 accepts
