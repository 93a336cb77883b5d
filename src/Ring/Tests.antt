-- ===== src/Ring/Tests.antt =====
-- The tests of surface_pool.rs, and the theorems on the ring at concrete inputs.
use rtmp_vcam.Prelude.{ℕ, zero, suc, ◌+◌, ◌*◌, ◌≡◌, refl, arith, some, none, List, [], ◌∷◌}
use rtmp_vcam.Ring.{Ring, new, push, latest, write_count, Shared, drop_handle}
use rtmp_vcam.Ring.Own.{Owns, new-Owns, push-Owns}
use rtmp_vcam.Ring.Window.{Pushed, pushes, InSlot, pushes-InSlot, latest-pushes, write_count-pushes}
use rtmp_vcam.Ring.Threads.{
  Pc, idle, enter, advance, advances, Threads, enters, moves, Reach, here as begun, next as then,
}
use rtmp_vcam.Ring.Race.{IsFair, Reach-IsFair}
use rtmp_vcam.Ring.Count.{write_index-completed}
use rtmp_vcam.Ring.Handles.{here, next, pushed, dropped, IsSafe, Reach-IsSafe}

abbrev frame : ℕ → Pushed
frame i = record { surface_id = i + 1; timestamp_ms = (i + 1) * 33; surface = i + 100 }

abbrev frames : ℕ → List Pushed
frames zero = []
frames (suc n) = frame n ∷ frames n

ring_empty : (latest new ≡ none) × (write_count new ≡ 0)
unfolding latest new write_count
ring_empty = (refl, refl)

ring_push_read : latest (push 42 1000 0 new) ≡ some (42, 1000)
unfolding latest new push
ring_push_read = refl

ring_overwrap :
    (latest (pushes (frames 20)) ≡ some (20, 660)) × (write_count (pushes (frames 20)) ≡ 20)
unfolding latest new push write_count
ring_overwrap = (refl, refl)

push-Owns_example : Owns (push 42 1000 7 new)
push-Owns_example = push-Owns 42 1000 7 new new-Owns

-- The push of age 7 of twenty stands in slot 4.
pushes-InSlot_example : InSlot (pushes (frames 20)) 4 (frame 12)
pushes-InSlot_example = pushes-InSlot (frames 20) 7 (frame 12) (omega arith) refl

latest-pushes_example : latest (pushes (frames 20)) ≡ some (20, 660)
latest-pushes_example = latest-pushes (frame 19) (frames 19)

write_count-pushes_example : write_count (pushes (frames 20)) ≡ 20
write_count-pushes_example = write_count-pushes (frames 20)

abbrev start : Shared
start = record { inner = new; handles = 1 }

abbrev used : Shared
used = record { inner = push 42 1000 7 new; handles = 1 }

Reach-IsSafe_example : IsSafe (drop_handle used)
Reach-IsSafe_example =
    Reach-IsSafe
      (next (next here (pushed start 42 1000 7 (omega arith))) (dropped used (omega arith)))

-- Two threads begin a push on the empty ring before either has ended.
abbrev both : Threads
both = record { ring = new; pcs = enter 1 33 100 new ∷ enter 2 66 200 new ∷ [] }

both-Reach : Reach 2 both
both-Reach =
    then (then begun (enters [] (idle ∷ []) 1 33 100 refl refl))
      (enters (enter 1 33 100 new ∷ []) [] 2 66 200 refl refl)

-- The first thread makes `k` accesses.
first_moves :
    (k : ℕ) (pc : Pc) (r : Ring) (behind : List Pc)
    → Reach 2 (record { ring = r; pcs = pc ∷ behind })
    → Reach 2 (record { ring = (advances k pc r).1; pcs = (advances k pc r).0 ∷ behind })
unfolding advances
first_moves zero pc r behind h = h
first_moves (suc k) pc r behind h =
    let (pc', r') = advance pc r in
    first_moves k pc' r' behind (then h (moves [] behind pc refl refl))

-- It has ended its push, and the second thread has not begun its accesses.
abbrev one_ended : Threads
one_ended = record {
  ring = (advances 6 (enter 1 33 100 new) new).1;
  pcs = (advances 6 (enter 1 33 100 new) new).0 ∷ enter 2 66 200 new ∷ [];
}

one_ended-Reach : Reach 2 one_ended
one_ended-Reach = first_moves 6 (enter 1 33 100 new) new (enter 2 66 200 new ∷ []) both-Reach

Reach-IsFair_example : IsFair one_ended
Reach-IsFair_example = Reach-IsFair one_ended-Reach

write_index-completed_example : one_ended.ring.write_index ≡ 1
unfolding one_ended-Reach first_moves both-Reach new advances advance
write_index-completed_example = write_index-completed one_ended-Reach

-- Both load the write index 0, so both write slot 0: with a write index of 2 the newest slot is
-- empty, and `latest` returns nothing.
slot_missed :
    latest (advances 6 (enter 2 66 200 new) (advances 6 (enter 1 33 100 new) new).1).1 ≡ none
unfolding latest new advances advance
slot_missed = refl
