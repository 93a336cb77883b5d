-- ===== src/Server/Whole.antt =====
-- The key over a whole connection.
use Prim.Native.String.{String}
use rtmp_vcam.Prelude.{
  ℕ, ◌≡◌, sym, subst, Option, none, some, List, [], ◌∷◌, Result, ok, err, inl, inr, Option-cases,
}
use rtmp_vcam.Io.{IoError, Io, and_then, ◌>>◌}
use rtmp_vcam.Session.{SessionResult, Rtmp, Tcp, VideoSink, World, handle_input}
use rtmp_vcam.Session.Keys.{Accepts, IsGranted, handle_input-Accepts, handle_input_refused}
use rtmp_vcam.Server.{Read, Ending, read_loop, serve}

-- How the server session may change in a connection: it takes an input, and then accepts requests
-- that the results of that input ask for, to publish only with the key that is wanted.
pub data Runs (rtmp : Rtmp) (stream_key : Option String)
    : rtmp.ServerSession → rtmp.ServerSession → Type 0 where
  idle : {s : rtmp.ServerSession} → Runs rtmp stream_key s s
  takes :
      {s t u : rtmp.ServerSession} (input : List ℕ) (results : List SessionResult)
      → (rtmp.take_input input s).0 ≡ some results
      → Accepts rtmp (IsGranted stream_key results) (rtmp.take_input input s).1 t
      → Runs rtmp stream_key t u
      → Runs rtmp stream_key s u
  breaks :
      {s : rtmp.ServerSession} (input : List ℕ)
      → (rtmp.take_input input s).0 ≡ none
      → Runs rtmp stream_key s (rtmp.take_input input s).1

module _ (rtmp : Rtmp) (tcp : Tcp) (video : VideoSink) (stream_key : Option String) where
  abbrev W : Type 0
  W = World rtmp tcp video

  and_then-Runs :
      (r : Result IoError (Unit {0})) (k : Io W Ending) (v : W)
      → ((v : W) → Runs rtmp stream_key v.session (k v).1.session)
      → Runs rtmp stream_key v.session (and_then r (λ _. k) v).1.session
  and_then-Runs (ok u) k v h = h v
  and_then-Runs (err e) k v h = idle

  input-Runs :
      (input : List ℕ) (w : W) (k : Io W Ending)
      → ((v : W) → Runs rtmp stream_key v.session (k v).1.session)
      → Runs rtmp stream_key w.session
          ((handle_input rtmp tcp video stream_key input >> k) w).1.session
  input-Runs input w k h = elim (Option-cases (rtmp.take_input input w.session).0) [
    | inl e ↦
        subst
          (λ (x : Result IoError (Unit {0}) × W).
            Runs rtmp stream_key w.session (and_then x.0 (λ _. k) x.1).1.session)
          (sym (handle_input_refused rtmp tcp video stream_key input w e)) (breaks input e)
    | inr (results, e) ↦
        let (r, v) = handle_input rtmp tcp video stream_key input w in
        takes input results e (handle_input-Accepts rtmp tcp video stream_key input results w e)
          (and_then-Runs r k v h)
  ]

  -- Whatever is read, and wherever the loop ends, the server session changes only by taking the
  -- inputs and by accepting requests that their results ask for: to publish only with the key that
  -- is wanted, if one is.
  pub read_loop-Runs :
      (reads : List Read) (w : W)
      → Runs rtmp stream_key w.session (read_loop rtmp tcp video stream_key reads w).1.session
  unfolding read_loop
  read_loop-Runs [] w = idle
  read_loop-Runs (none ∷ reads) w = idle
  read_loop-Runs (some [] ∷ reads) w = idle
  read_loop-Runs (some (x ∷ xs) ∷ reads) w =
      input-Runs (x ∷ xs) w (read_loop rtmp tcp video stream_key reads) (read_loop-Runs reads)

  -- The same of all that a connection does behind its handshake, the bytes that came with the
  -- handshake's end included.
  pub serve-Runs :
      (remaining : List ℕ) (reads : List Read) (w : W)
      → Runs rtmp stream_key w.session (serve rtmp tcp video stream_key remaining reads w).1.session
  unfolding serve
  serve-Runs [] reads w = read_loop-Runs reads w
  serve-Runs (x ∷ xs) reads w =
      input-Runs (x ∷ xs) w (read_loop rtmp tcp video stream_key reads) (read_loop-Runs reads)
