-- ===== src/Handshake/Once.antt =====
-- A handshake completes once.
use rtmp_vcam.Prelude.{
  ℕ, ◌+◌, ◌≡◌, ap, refl, Bool, true, false, Option, none, some, List, [], ◌∷◌, Result, ok, err,
  arith, if◌then◌else◌, Bool-cases, inl, inr,
}
use rtmp_vcam.Io.{IoError, invalid_data}
use rtmp_vcam.Handshake.{
  Rml, HandshakeResult, in_progress, finished, failed, HandshakeState, answer, new, process,
  is_completed,
}

module _ (rml : Rml) where
  -- The state after the inputs, in order, whatever each call returned.
  unfoldable pub after_all : List (List ℕ) → HandshakeState rml → HandshakeState rml
  after_all [] h = h
  after_all (input ∷ inputs) h = after_all inputs (process rml input h).1

  -- 1 if the call returned the bytes behind the handshake.
  abbrev pub completes : Result IoError (List ℕ × Option (List ℕ)) → ℕ
  completes (ok (response, some remaining)) = 1
  completes (ok (response, none)) = 0
  completes (err e) = 0

  -- How many of the calls did.
  unfoldable pub completions : List (List ℕ) → HandshakeState rml → ℕ
  completions [] h = 0
  completions (input ∷ inputs) h =
      completes (process rml input h).0 + completions inputs (process rml input h).1

  abbrev flag : Bool → ℕ
  flag b = if b then 1 else 0

  answer-completes :
      (r : HandshakeResult) (h : HandshakeState rml)
      → h.completed ≡ false
      → completes (answer rml r h).0 ≡ flag ((answer rml r h).1.completed)
  unfolding answer
  answer-completes (in_progress response) h e = rw e refl
  answer-completes (finished response remaining) h e = refl
  answer-completes failed h e = rw e refl

  -- A handshake that is complete refuses every further input, and is left as it is.
  pub process_completed :
      (input : List ℕ) (h : HandshakeState rml)
      → h.completed ≡ true
      → process rml input h ≡ (err invalid_data, h)
  unfolding process
  process_completed input h e = simp e refl

  process_open :
      (input : List ℕ) (h : HandshakeState rml)
      → h.completed ≡ false
      → process rml input h
        ≡ answer rml
            (rml.process_bytes input h.inner).0
            (record h { inner = (rml.process_bytes input h.inner).1 })
  unfolding process
  process_open input h e = simp e refl

  process-completes :
      (input : List ℕ) (h : HandshakeState rml)
      → completes (process rml input h).0 + flag h.completed
        ≡ flag ((process rml input h).1.completed)
  process-completes input h = elim (Bool-cases h.completed) [
    | inl done ↦ simp (process_completed input h done) (omega arith)
    | inr open_still ↦ omega (
      arith,
      ap (λ r. completes r.0) (process_open input h open_still),
      ap (λ r. flag r.1.completed) (process_open input h open_still),
      ap flag open_still,
      answer-completes (rml.process_bytes input h.inner).0
          (record h { inner = (rml.process_bytes input h.inner).1 }) open_still,
    )
  ]

  completions-flag :
      (inputs : List (List ℕ)) (h : HandshakeState rml)
      → completions inputs h + flag h.completed ≡ flag ((after_all inputs h).completed)
  unfolding completions after_all
  completions-flag [] h = omega arith
  completions-flag (input ∷ inputs) h =
      omega (arith, process-completes input h, completions-flag inputs (process rml input h).1)

  -- Whatever is fed to a new handshake, and whatever rml_rtmp answers, at most one call returns the
  -- bytes behind the handshake, and one has returned them exactly when `is_completed` says so.
  pub completions-is_completed :
      (inputs : List (List ℕ))
      → completions inputs (new rml)
        ≡ (if is_completed rml (after_all inputs (new rml)) then 1 else 0)
  unfolding new is_completed
  completions-is_completed inputs = omega (arith, completions-flag inputs (new rml))
