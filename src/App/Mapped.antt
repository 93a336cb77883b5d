-- ===== src/App/Mapped.antt =====
-- main.rs: the shared frame buffer stays mapped for as long as the process runs.
use rtmp_vcam.Prelude.{
  ℕ, ◌+◌, ◌≤◌, ◌≡◌, refl, ap, Bool-cases, inl, inr, ◌∙◌, arith, Bool, true, false, List, [], ◌∷◌,
  Result, ok, err, ◌==◌,
}
use rtmp_vcam.Ipc.{Libc, System, SharedFrameBuffer, create}
use rtmp_vcam.App.{
  Phase, running, exited, Event, accepted, ended, accept_failed, interrupted, parent_died, Process,
  drop_arc, exit_with, end_run, with_created, start, handle, step, steps,
}

-- The references that no connection holds.
abbrev pub own : Phase → ℕ
own running = 3
own (exited code) = 2

-- Since the first process the buffer has been neither unmapped nor closed, and there are references
-- left beside those of the live connections.
pub record IsMapped {libc : Libc} (p q : Process libc) : Type 0 where
  pub system : q.system ≡ p.system
  pub buffer : q.buffer ≡ p.buffer
  pub handles : q.live + own q.phase ≤ q.handles

module _ {libc : Libc} (p : Process libc) where
  -- What a running process drops is not the last reference.
  drop_arc-system : (q : Process libc) → 3 ≤ q.handles → (drop_arc libc q).system ≡ q.system
  unfolding drop_arc
  drop_arc-system q h = ground arith

  dropped :
      (code : ℕ) (q : Process libc)
      → q.live + 3 ≤ q.handles
      → IsMapped p q
      → IsMapped p (exit_with libc code (drop_arc libc q))
  unfolding exit_with drop_arc
  dropped code q h m = record {
    system = drop_arc-system q (omega arith) ∙ m.system;
    buffer = m.buffer;
    handles = omega arith;
  }

  ended-IsMapped :
      (q : Process libc)
      → q.phase ≡ running
      → q.live + 3 ≤ q.handles
      → IsMapped p q
      → IsMapped p (handle libc ended q)
  unfolding handle
  ended-IsMapped q r h m = elim (Bool-cases (q.live == 0)) [
    | inl e ↦ rw e m
    | inr e ↦ rw e (record {
      system = drop_arc-system q (omega arith) ∙ m.system;
      buffer = m.buffer;
      handles = unfold drop_arc in ground (arith, ap own r);
    })
  ]

  handle-IsMapped :
      (e : Event) (q : Process libc)
      → q.phase ≡ running
      → q.live + 3 ≤ q.handles
      → IsMapped p q
      → IsMapped p (handle libc e q)
  unfolding handle end_run exit_with
  handle-IsMapped accepted q r h m = record {
    system = m.system;
    buffer = m.buffer;
    handles = omega (arith, m.handles);
  }
  handle-IsMapped ended q r h m = ended-IsMapped q r h m
  handle-IsMapped accept_failed q r h m = dropped 1 q h m
  handle-IsMapped interrupted q r h m = dropped 0 q h m
  handle-IsMapped parent_died q r h m = record {
    system = m.system;
    buffer = m.buffer;
    handles = omega arith;
  }

  step-IsMapped :
      (phase : Phase) (e : Event) (q : Process libc)
      → q.phase ≡ phase
      → IsMapped p q
      → IsMapped p (step libc phase e q)
  unfolding step
  step-IsMapped running e q r m = handle-IsMapped e q r (omega (arith, m.handles, ap own r)) m
  step-IsMapped (exited code) e q r m = m

  steps-from-IsMapped :
      (events : List Event) (q : Process libc) → IsMapped p q → IsMapped p (steps libc events q)
  unfolding steps
  steps-from-IsMapped [] q m = m
  steps-from-IsMapped (e ∷ events) q m =
      steps-from-IsMapped events (step libc q.phase e q) (step-IsMapped q.phase e q refl m)

with_created-start :
    (libc : Libc) (bound : Bool) (r : Result ℕ SharedFrameBuffer) (s : System libc)
    (p : Process libc)
    → with_created libc bound r s ≡ ok p
    → (p.system ≡ s) × (p.live + own p.phase ≤ p.handles)
unfolding with_created end_run drop_arc exit_with
with_created-start libc bound (err x) s p e = absurd (ground arith)
with_created-start libc true (ok b) s p e = (ground arith, ground arith)
with_created-start libc false (ok b) s p e = (ground arith, ground arith)

-- From its first to its last moment, whatever connections come and go and however it ends, Ctrl+C
-- included, the process neither unmaps nor closes the buffer, and all live connections hold
-- references to it: so no decoder writes to memory that is no longer mapped.
pub steps-IsMapped :
    (libc : Libc) (bound : Bool) (s : System libc) (p : Process libc) (events : List Event)
    → start libc bound s ≡ ok p
    → (p.system ≡ (create libc s).1) × IsMapped p (steps libc events p)
unfolding start
steps-IsMapped libc bound s p events e =
    let (r, s') = create libc s in
    let (system, handles) = with_created-start libc bound r s' p e in
    (
      system,
      steps-from-IsMapped p events p (record { system = refl; buffer = refl; handles = handles }),
    )
