-- ===== src/App.antt =====
-- crates/rtmp-vcam-app/src/main.rs: main, by the references to the shared frame buffer.
-- The buffer stands behind an Arc, which is dropped with its last reference. main itself, the task
-- that waits for Ctrl+C, the factory that `run` owns and each connection's sink hold one. Argument
-- reading has its own model; logging is left out.
mod Mapped
mod Tests
use rtmp_vcam.Prelude.{
  ℕ, ◌+◌, ◌-◌, Bool, true, false, List, [], ◌∷◌, Result, ok, err, ◌==◌, if◌then◌else◌,
}
use rtmp_vcam.Ipc.{Libc, System, SharedFrameBuffer, create, drop_buffer}

pub data Phase : Type 0 where
  running : Phase
  exited : (code : ℕ) → Phase

-- What may happen next: a connection is accepted, the task of one ends, `accept` fails, Ctrl+C, or
-- the parent's id has changed. A task ends only while one is live.
pub data Event : Type 0 where
  accepted ended accept_failed interrupted parent_died : Event

pub record Process (libc : Libc) : Type 0 where
  pub phase : Phase
  pub buffer : SharedFrameBuffer
  pub handles : ℕ
  pub live : ℕ
  pub system : System libc

module _ (libc : Libc) where
  abbrev pub P : Type 0
  P = Process libc

  abbrev pub clone_arc : P → P
  clone_arc p = record p { handles = p.handles + 1 }

  unfoldable pub drop_arc : P → P
  drop_arc p = record p {
    handles = p.handles - 1;
    system = if p.handles == 1 then drop_buffer libc p.buffer p.system else p.system;
  }

  -- A process that exits runs no destructors but those before its `exit`.
  unfoldable pub exit_with : ℕ → P → P
  exit_with code p = record p { phase = exited code }

  -- `run` returns: the factory goes out of scope with it, and main exits.
  unfoldable pub end_run : P → P
  unfolding drop_arc exit_with
  end_run p = exit_with 1 (drop_arc p)

  -- main, up to the loop of `run`. An error is the code that it exits with.
  unfoldable pub with_created : Bool → Result ℕ SharedFrameBuffer → System libc → Result ℕ P
  unfolding end_run
  with_created bound (err e) s = err 1
  with_created bound (ok b) s =
      let arc : P = record { phase = running; buffer = b; handles = 1; live = 0; system = s } in
      let p = clone_arc (clone_arc arc) in ok (if bound then p else end_run p)

  -- `bound` is whether the listener is bound.
  unfoldable pub start : Bool → System libc → Result ℕ P
  unfolding with_created
  start bound s = let (r, s') = create libc s in with_created bound r s'

  unfoldable pub handle : Event → P → P
  unfolding end_run
  handle accepted p = let p' = clone_arc p in record p' { live = p.live + 1 }
  handle ended p =
      if p.live == 0 then p else (let p' = drop_arc p in record p' { live = p.live - 1 })
  handle accept_failed p = end_run p
  handle interrupted p = exit_with 0 (drop_arc p)
  handle parent_died p = exit_with 0 p

  unfoldable pub step : Phase → Event → P → P
  step running e p = handle e p
  step (exited code) e p = p

  unfoldable pub steps : List Event → P → P
  steps [] p = p
  steps (e ∷ events) p = steps events (step p.phase e p)
