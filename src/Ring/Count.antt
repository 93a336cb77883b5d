-- ===== src/Ring/Count.antt =====
-- surface_pool.rs: the write index counts the pushes of several threads.
use rtmp_vcam.Prelude.{ℕ, ◌+◌, ◌%◌, ◌^◌, ◌<◌, ◌≡◌, refl, ap, ◌∙◌, arith}
use rtmp_vcam.Ring.{Ring, new}
use rtmp_vcam.Ring.Threads.{
  Pc, idle, at_retain, at_exchange, at_release, at_id, at_timestamp, at_increment, advance, Threads,
  enters, moves, Reach, here, next,
}

-- 1 if the thread runs no push.
abbrev pub free : Pc → ℕ
free idle = 1
free (at_retain idx i t q) = 0
free (at_exchange idx i t q) = 0
free (at_release idx i t old) = 0
free (at_id idx i t) = 0
free (at_timestamp idx t) = 0
free at_increment = 0

-- How many pushes end with an access that leads from `pc` to `pc'`: one if a push was running and
-- none is.
abbrev pub ends : Pc → Pc → ℕ
ends idle pc' = 0
ends (at_retain idx i t q) pc' = free pc'
ends (at_exchange idx i t q) pc' = free pc'
ends (at_release idx i t old) pc' = free pc'
ends (at_id idx i t) pc' = free pc'
ends (at_timestamp idx t) pc' = free pc'
ends at_increment pc' = free pc'

-- How many pushes have come to their end.
abbrev pub completed : {n : ℕ} {s : Threads} → Reach n s → ℕ
completed here = 0
completed (next r (enters xs ys i t q e e')) = completed r
completed (next {s} r (moves xs ys pc e e')) = ends pc (advance pc s.ring).0 + completed r

advance-index :
    (pc : Pc) (r : Ring)
    → r.write_index < 2 ^ 64
    → (advance pc r).1.write_index ≡ (r.write_index + ends pc (advance pc r).0) % 2 ^ 64
unfolding advance
advance-index idle r h = omega arith
advance-index (at_retain idx i t q) r h = omega arith
advance-index (at_exchange idx i t q) r h = omega arith
advance-index (at_release idx i t old) r h = omega arith
advance-index (at_id idx i t) r h = omega arith
advance-index (at_timestamp idx t) r h = omega arith
advance-index at_increment r h = refl

-- However the accesses of several pushes interleave, the write index is the number of pushes that
-- have ended, modulo 2^64: of the accesses after which a thread that ran a push runs none.
pub write_index-completed :
    {n : ℕ} {s : Threads} (r : Reach n s) → s.ring.write_index ≡ completed r % 2 ^ 64
unfolding new
write_index-completed here = refl
write_index-completed (next r (enters xs ys i t q e e')) =
    ap (λ u. u.ring.write_index) e' ∙ write_index-completed r
write_index-completed (next {s} r (moves xs ys pc e e')) =
    ap (λ u. u.ring.write_index) e'
    ∙ omega (
      arith,
      advance-index pc s.ring (omega (arith, write_index-completed r)),
      write_index-completed r,
    )
