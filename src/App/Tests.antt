-- ===== src/App/Tests.antt =====
-- Runs of the process over system calls that succeed, and the theorem there.
use rtmp_vcam.Prelude.{◌≡◌, refl, true, List, [], ◌∷◌, ok, err}
use rtmp_vcam.Ipc.{pos, System, opened, mapped, create}
use rtmp_vcam.Ipc
use rtmp_vcam.Ipc.Sample.{with_status, started}
use rtmp_vcam.App.{
  running, exited, Event, accepted, ended, interrupted, Process, start, handle, step, steps,
  drop_arc, exit_with, with_created,
}
use rtmp_vcam.App.Mapped.{IsMapped, steps-IsMapped}

abbrev begun : Process (with_status 0)
begun = record {
  phase = running;
  buffer = record { ptr = 4096; fd = pos 3 };
  handles = 3;
  live = 0;
  system = (create (with_status 0) (started 0)).1;
}

begins : start (with_status 0) true (started 0) ≡ ok begun
unfolding start with_created create Ipc.open_and_map Ipc.is_negative
begins = refl

not_sized : start (with_status 28) true (started 28) ≡ err 1
unfolding start with_created create Ipc.open_and_map Ipc.is_negative
not_sized = refl

abbrev events : List Event
events = accepted ∷ accepted ∷ ended ∷ interrupted ∷ []

-- Ctrl+C drops one reference of four: the buffer is still mapped when the process exits.
interrupted-mapped :
    let q = steps (with_status 0) events begun in
    (q.phase ≡ exited 0) × (q.handles ≡ 3) × (q.system.entries ≡ mapped 4096 ∷ opened (pos 3) ∷ [])
unfolding steps step handle drop_arc exit_with create Ipc.open_and_map Ipc.is_negative
interrupted-mapped = (refl, refl, refl)

steps-IsMapped_example :
    (begun.system ≡ (create (with_status 0) (started 0)).1)
    × IsMapped begun (steps (with_status 0) events begun)
steps-IsMapped_example = steps-IsMapped (with_status 0) true (started 0) begun events begins
