-- ===== src/Handshake.antt =====
-- crates/rtmp-server/src/handshake.rs: the handshake of a connection, over rml_rtmp's.
pub mod Once
mod Tests
use rtmp_vcam.Prelude.{
  ℕ, ◌≡◌, ◌≢◌, refl, Bool, true, false, Option, none, some, List, [], Result, ok, err, arith,
  if◌then◌else◌,
}
use rtmp_vcam.Io.{IoError, invalid_data, Io}

-- What rml_rtmp's `process_bytes` answers.
pub data HandshakeResult : Type 0 where
  in_progress : List ℕ → HandshakeResult
  finished : List ℕ → List ℕ → HandshakeResult
  failed : HandshakeResult

-- `rml_rtmp::handshake::Handshake` of the server's side.
pub record Rml : Type 1 where
  pub Handshake : Type 0
  pub new_server : Handshake
  pub process_bytes : List ℕ → Handshake → HandshakeResult × Handshake

module _ (rml : Rml) where
  open rml use {Handshake, new_server, process_bytes}

  pub record HandshakeState : Type 0 where
    pub inner : Handshake
    pub completed : Bool

  unfoldable pub new : HandshakeState
  new = record { inner = new_server; completed = false }

  -- The answer of `process_bytes`, beside the state with the inner handshake that it left.
  unfoldable pub answer :
      HandshakeResult → HandshakeState → Result IoError (List ℕ × Option (List ℕ)) × HandshakeState
  answer (in_progress response) h = (ok (response, none), h)
  answer (finished response remaining) h =
      (ok (response, some remaining), record h { completed = true })
  answer failed h = (err invalid_data, h)

  unfoldable pub process : List ℕ → Io HandshakeState (List ℕ × Option (List ℕ))
  unfolding answer
  process input h =
      if h.completed
      then (err invalid_data, h)
      else (let (r, inner) = process_bytes input h.inner in answer r (record h { inner = inner }))

  unfoldable pub is_completed : HandshakeState → Bool
  is_completed h = h.completed
