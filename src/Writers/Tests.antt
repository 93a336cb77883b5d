-- ===== src/Writers/Tests.antt =====
-- Two callbacks at once, and the theorem there.
use rtmp_vcam.Prelude.{ℕ, ◌+◌, ◌≡◌, refl, arith, false, Result, ok, err, [], ◌∷◌, map}
use rtmp_vcam.Frame.{Bytes, Fault, PixelBuffer, State, copy, copy_rows, copy_plane}
use rtmp_vcam.Frame.Callback.{IsNv12, Fits}
use rtmp_vcam.Writers.{
  Pc, idle, at_uv, at_width, at_height, at_increment, enter, advance, advances, Writers, enters,
  moves, Reach, here as begun, next as then,
}
use rtmp_vcam.Writers.Steady.{IsSteady, Reach-IsSteady}

-- One row of one byte `b`, and no chroma rows but one.
abbrev image : ℕ → PixelBuffer
image b = record {
  lock_status = 0;
  width = 1;
  height = 1;
  y_plane = record { is_null = false; stride = 1; rows = 1; size = 1; bytes = λ a. b };
  uv_plane = record { is_null = false; stride = 1; rows = 1; size = 1; bytes = λ a. b + 1 };
}

image-IsNv12 : (b : ℕ) → IsNv12 (image b)
image-IsNv12 b = record {
  y = record { there = refl; count = refl; wide = omega arith; room = omega arith };
  uv = record { there = refl; count = refl; wide = omega arith; room = omega arith };
}

image-Fits : (b : ℕ) → Fits (image b)
image-Fits b = omega arith

abbrev zeros : Bytes
zeros a = 0

abbrev mapping : Result Fault (Pc × Bytes) → Bytes
mapping (ok (pc, shm)) = shm
mapping (err e) = zeros

-- Both load the write index 0, and both write the first slot: with a write index of 2 the reader
-- looks at the second slot, in which nothing stands.
one_slot :
    map
      (mapping
        (advances 5 (enter (image 20) zeros) (mapping (advances 5 (enter (image 10) zeros) zeros))))
      (0 ∷ 64 ∷ 65 ∷ 3110464 ∷ 3110465 ∷ [])
    ≡ 2 ∷ 20 ∷ 21 ∷ 0 ∷ 0 ∷ []
unfolding advances advance copy_plane copy copy_rows
one_slot = refl

abbrev both : Writers
both = record { shm = zeros; pcs = enter (image 10) zeros ∷ enter (image 20) zeros ∷ [] }

both-Reach : Reach 2 both
both-Reach =
    then (then begun (enters [] (idle ∷ []) (image 10) (image-Fits 10) (image-IsNv12 10) refl refl))
      (enters (enter (image 10) zeros ∷ []) [] (image 20) (image-Fits 20) (image-IsNv12 20) refl
        refl)

-- The first has made `k` accesses, while the second has made none.
abbrev after : ℕ → Bytes
after k = mapping (advances k (enter (image 10) zeros) zeros)

abbrev moved : Pc → ℕ → Writers
moved pc k = record { shm = after k; pcs = pc ∷ enter (image 20) zeros ∷ [] }

first_moves :
    (pc pc' : Pc) (k : ℕ)
    → advance pc (after k) ≡ ok (pc', after (k + 1))
    → Reach 2 (moved pc k)
    → Reach 2 (moved pc' (k + 1))
first_moves pc pc' k run r =
    then r (moves [] (enter (image 20) zeros ∷ []) pc pc' (after (k + 1)) refl run refl)

begun-Reach : Reach 2 (moved (enter (image 10) zeros) 0)
unfolding advances
begun-Reach = both-Reach

-- The first has ended its callback.
ended-Reach : Reach 2 (moved idle 5)
unfolding advances advance copy_plane copy
ended-Reach = first_moves at_increment idle 4 refl (
    first_moves (at_height (image 10)) at_increment 3 refl (
      first_moves (at_width (image 10)) (at_height (image 10)) 2 refl (
        first_moves (at_uv (image 10) 0) (at_width (image 10)) 1 refl
          (first_moves (enter (image 10) zeros) (at_uv (image 10) 0) 0 refl begun-Reach))))

Reach-IsSteady_example : IsSteady 1 (moved idle 5)
unfolding ended-Reach first_moves begun-Reach both-Reach
Reach-IsSteady_example = Reach-IsSteady ended-Reach

abbrev alone : State
alone = record { shm = zeros; locks = 1 }
