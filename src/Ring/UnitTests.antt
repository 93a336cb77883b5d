-- ===== src/Ring/UnitTests.antt =====
-- crates/video-pipeline/src/surface_pool.rs: its unit tests. A test is whether its assertions hold;
-- `unwrap` of nothing fails it.
use rtmp_vcam.Prelude.{
  ℕ, zero, suc, ◌+◌, ◌*◌, ◌≡◌, refl, Bool, true, false, ◌&&◌, ◌==◌, Option, none, some,
}
use rtmp_vcam.Ring.{Ring, new, push, latest, write_count}

unfoldable is_none : Option (ℕ × ℕ) → Bool
is_none none = true
is_none (some found) = false

-- `let (id, ts) = ring.latest().unwrap()`, and what is asserted of both.
unfoldable has_latest : Option (ℕ × ℕ) → ℕ → ℕ → Bool
has_latest none id ts = false
has_latest (some (id', ts')) id ts = id' == id && ts' == ts

unfoldable test_ring_empty : Bool
unfolding is_none
test_ring_empty = is_none (latest new) && write_count new == 0

unfoldable test_ring_push_read : Bool
unfolding has_latest
test_ring_push_read =
    let ring = push 42 1000 0 new in has_latest (latest ring) 42 1000 && write_count ring == 1

-- `for i in i..i + n`
unfoldable push_loop : ℕ → ℕ → Ring → Ring
push_loop zero i ring = ring
push_loop (suc n) i ring = push_loop n (i + 1) (push (i + 1) ((i + 1) * 33) 0 ring)

unfoldable test_ring_overwrap : Bool
unfolding push_loop has_latest
test_ring_overwrap =
    let ring = push_loop 20 0 new in has_latest (latest ring) 20 (20 * 33) && write_count ring == 20

empty_passes : test_ring_empty ≡ true
unfolding test_ring_empty new latest write_count
empty_passes = refl

push_read_passes : test_ring_push_read ≡ true
unfolding test_ring_push_read new push latest write_count
push_read_passes = refl

overwrap_passes : test_ring_overwrap ≡ true
unfolding test_ring_overwrap new push latest write_count
overwrap_passes = refl
