-- ===== src/Frame/Planes.antt =====
-- The copy of a plane and the copy of its rows one by one.
use mathlib.Core.Path.{fun_ext}
use native.Mathlib.Nat.{mod-lt, div-add-mod', div-lt_iff_lt-mul}
use rtmp_vcam.Prelude.{
  ℕ, zero, suc, ◌+◌, ◌-◌, ◌*◌, ◌/◌, ◌%◌, ◌≤◌, ◌<◌, ◌≡◌, ◌⊎◌, inl, inr, Bool-cases, true, refl, sym,
  ap, ◌∙◌, ltb-true_inv, leb-true_inv, ltb-false_inv, leb-false_inv, arith, if◌then◌else◌, leb, ltb,
  ok,
}
use rtmp_vcam.Frame.{Bytes, Plane, frame_shm_size, copy_rows, copy_plane}
use rtmp_vcam.Frame.Rows.{Packed, copy_rows_lem, copy_plane_lem}

pos_of_lt-mul : (w n k : ℕ) → k < n * w → 0 < w
pos_of_lt-mul zero n k h = absurd (omega arith)
pos_of_lt-mul (suc w) n k h = omega arith

-- Two results that pack the same rows are one.
Packed-unique :
    (n : ℕ) (src : Plane) (width dst : ℕ) (shm f g : Bytes)
    → Packed n 0 src width dst shm f
    → Packed n 0 src width dst shm g
    → (a : ℕ) → f a ≡ g a
Packed-unique n src width dst shm f g p q a = elim (Bool-cases (ltb a dst)) [
  | inl before ↦ apart (inl (omega (arith, ltb-true_inv a dst before)))
  | inr from ↦ elim (Bool-cases (leb (dst + n * width) a)) [
    | inl behind ↦ apart (inr (omega (arith, leb-true_inv (dst + n * width) a behind)))
    | inr inner ↦ inside (ltb-false_inv a dst from) (leb-false_inv (dst + n * width) a inner)
  ]
]
  where
    apart : (a < dst + 0 * width) ⊎ (dst + (0 + n) * width ≤ a) → f a ≡ g a
    apart h = p.outside a h ∙ sym (q.outside a h)

    inside : dst ≤ a → a < dst + n * width → f a ≡ g a
    inside lo hi =
        ap f at
        ∙ p.inside r c (omega arith) (omega (arith, row)) col
        ∙ sym (ap g at ∙ q.inside r c (omega arith) (omega (arith, row)) col)
      where
        r : ℕ
        r = (a - dst) / width

        c : ℕ
        c = (a - dst) % width

        wide : 0 < width
        wide = pos_of_lt-mul width n (a - dst) (omega arith)

        row : r < n
        row = (div-lt_iff_lt-mul {k = width} {x = a - dst} {y = n} wide).1 (omega arith)

        col : c < width
        col = mod-lt (a - dst) wide

        at : a ≡ dst + r * width + c
        at = omega (arith, div-add-mod' (a - dst) width)

copy_plane_null :
    (src : Plane) (width dst : ℕ) (shm : Bytes)
    → src.is_null ≡ true
    → copy_plane src width dst shm ≡ ok shm
unfolding copy_plane
copy_plane_null src width dst shm null = simp null refl

-- For a plane whose rows hold at least `width` bytes and lie inside both buffers: the copy row by row
-- meets no fault, byte `c` of row `r` then stands at `dst + r * width + c`, read at `r * stride + c` of
-- the plane, and nothing else has changed. The copy of the plane, which takes the fast path where the
-- rows have no padding, leaves the same mapping, but the mapping as it was where the plane is null.
pub copy_plane-copy_rows :
    (src : Plane) (width dst : ℕ) (shm : Bytes)
    → width ≤ src.stride
    → src.rows * src.stride ≤ src.size
    → dst + src.rows * width ≤ frame_shm_size
    → (after : Bytes) × (copy_rows src.rows 0 src width dst shm ≡ ok after)
      × Packed src.rows 0 src width dst shm after
      × (copy_plane src width dst shm ≡ ok (if src.is_null then shm else after))
copy_plane-copy_rows src width dst shm wide size room =
    let (after, result, packed) =
      copy_rows_lem src.rows 0 src width dst shm wide (omega arith) (omega arith) in
    (
      after,
      result,
      packed,
      elim (Bool-cases src.is_null) [
        | inl null ↦
            copy_plane_null src width dst shm null
            ∙ ap (λ b. ok (if b then shm else after)) (sym null)
        | inr there ↦
            let plane = copy_plane_lem src width dst shm there wide size room in
            plane.result
            ∙ ap ok (
                fun_ext
                  (Packed-unique src.rows src width dst shm plane.after after plane.packed packed))
            ∙ ap (λ b. ok (if b then shm else after)) (sym there)
      ],
    )
