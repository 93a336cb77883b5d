-- ===== src/Handshake/Tests.antt =====
-- A handshake over a stand-in for rml_rtmp's, which is done with its second input.
use rtmp_vcam.Prelude.{ℕ, ◌≡◌, ◌==◌, if◌then◌else◌, refl, List, [], ◌∷◌}
use rtmp_vcam.Handshake.{
  Rml, in_progress, finished, HandshakeResult, new, answer, process, is_completed,
}
use rtmp_vcam.Handshake.Once.{completions, completions-is_completed, after_all}

abbrev shake_twice : List ℕ → ℕ → HandshakeResult × ℕ
shake_twice input seen = if seen == 0 then (in_progress (1 ∷ []), 1) else (finished [] input, 2)

abbrev rml : Rml
rml = record { Handshake = ℕ; new_server = 0; process_bytes = shake_twice }

abbrev inputs : List (List ℕ)
inputs = (3 ∷ []) ∷ (4 ∷ 5 ∷ []) ∷ (6 ∷ []) ∷ []

completes_once : completions rml inputs (new rml) ≡ 1
unfolding completions new process answer
completes_once = refl

completions-is_completed_example :
    completions rml inputs (new rml)
    ≡ (if is_completed rml (after_all rml inputs (new rml)) then 1 else 0)
completions-is_completed_example = completions-is_completed rml inputs
