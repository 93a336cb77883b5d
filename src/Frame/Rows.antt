-- ===== src/Frame/Rows.antt =====
-- The copy of a plane, byte by byte.
use rtmp_vcam.Prelude.{
  ℕ, zero, suc, ◌+◌, ◌-◌, ◌*◌, ◌≤◌, ◌<◌, ◌≡◌, ◌⊎◌, inl, inr, Bool-cases, true, false, refl, ap, ◌∙◌,
  arith, ◌==◌, ==_iff, if◌then◌else◌, ◌&&◌, leb, ltb, ltb-false, ltb-true, leb-true, ok,
}
use rtmp_vcam.Frame.{Bytes, Plane, frame_shm_size, copy, copy_rows, copy_plane}

-- A copy inside both buffers.
pub record Copied (src : Plane) (from to n : ℕ) (shm : Bytes) : Type 0 where
  pub after : Bytes
  pub result : copy src from to n shm ≡ ok after
  pub inside : (k : ℕ) → k < n → after (to + k) ≡ src.bytes (from + k)
  pub outside : (a : ℕ) → (a < to) ⊎ (to + n ≤ a) → after a ≡ shm a

pub copy_lem :
    (src : Plane) (from to n : ℕ) (shm : Bytes)
    → from + n ≤ src.size
    → to + n ≤ frame_shm_size
    → Copied src from to n shm
unfolding copy
copy_lem src from to n shm p q = record {
  after = λ a. if leb to a && ltb a (to + n) then src.bytes (from + (a - to)) else shm a;
  result = rw (ltb-false _ _ p, ltb-false _ _ q) refl;
  inside = λ k h.
      rw (leb-true to (to + k) (omega arith), ltb-true (to + k) (to + n) (omega arith))
        (ap src.bytes (omega arith));
  outside = λ a h. ground arith;
}

-- The rows from `row` on, packed at `dst`, with nothing else changed.
pub record Packed (n row : ℕ) (src : Plane) (width dst : ℕ) (shm after : Bytes) : Type 0 where
  pub inside :
      (r c : ℕ)
      → row ≤ r
      → r < row + n
      → c < width
      → after (dst + r * width + c) ≡ src.bytes (r * src.stride + c)
  pub outside : (a : ℕ) → (a < dst + row * width) ⊎ (dst + (row + n) * width ≤ a) → after a ≡ shm a

mul_le : (a b w : ℕ) → a ≤ b → a * w ≤ b * w
mul_le a b w h = grind arith

-- One row in front of the rows behind it.
module _ (n row : ℕ) (src : Plane) (width dst : ℕ) (shm after : Bytes)
    (first : Copied src (row * src.stride) (dst + row * width) width shm)
    (packed : Packed n (row + 1) src width dst first.after after) where
  inside-cons :
      (r c : ℕ)
      → row ≤ r
      → r < row + suc n
      → c < width
      → after (dst + r * width + c) ≡ src.bytes (r * src.stride + c)
  inside-cons r c lo hi l = elim (Bool-cases (r == row)) [
    | inl same ↦
        let e : r ≡ row = (==_iff r row).0 same in
        rw e (packed.outside (dst + row * width + c) (inl (omega arith)) ∙ first.inside c l)
    | inr other ↦ packed.inside r c (ground arith) (omega arith) l
  ]

  outside-cons :
      (a : ℕ) → (a < dst + row * width) ⊎ (dst + (row + suc n) * width ≤ a) → after a ≡ shm a
  outside-cons a (inl h) = packed.outside a (inl (omega arith)) ∙ first.outside a (inl h)
  outside-cons a (inr h) =
      packed.outside a (inr (omega (arith, mul_le (row + 1) (row + suc n) width (omega arith))))
      ∙ first.outside a (inr (omega (arith, mul_le (row + 1) (row + suc n) width (omega arith))))

  Packed-cons : Packed (suc n) row src width dst shm after
  Packed-cons = record { inside = inside-cons; outside = outside-cons }

pub copy_rows_lem :
    (n row : ℕ) (src : Plane) (width dst : ℕ) (shm : Bytes)
    → width ≤ src.stride
    → (row + n) * src.stride ≤ src.size
    → dst + (row + n) * width ≤ frame_shm_size
    → (after : Bytes) × (copy_rows n row src width dst shm ≡ ok after)
      × Packed n row src width dst shm after
unfolding copy_rows
copy_rows_lem zero row src width dst shm p q s =
    (shm, refl, record { inside = λ r c h h' l. absurd (omega arith); outside = λ a h. refl })
copy_rows_lem (suc n) row src width dst shm p q s =
    let first =
      copy_lem src (row * src.stride) (dst + row * width) width shm
        (omega (arith, mul_le (row + 1) (row + suc n) src.stride (omega arith)))
        (omega (arith, mul_le (row + 1) (row + suc n) width (omega arith))) in
    let (after, result, packed) =
      copy_rows_lem n (row + 1) src width dst first.after p (omega (arith, q)) (omega (arith, s)) in
    (after, rw first.result result, Packed-cons n row src width dst shm after first packed)

-- The row-by-row copy of a whole plane.
pub record PlaneCopied (src : Plane) (width dst : ℕ) (shm : Bytes) : Type 0 where
  pub after : Bytes
  pub result : copy_plane src width dst shm ≡ ok after
  pub packed : Packed src.rows 0 src width dst shm after

-- One copy of a plane without padding packs its rows.
copy-Packed :
    (src : Plane) (width dst : ℕ) (shm : Bytes) (e : src.stride ≡ width)
    (c : Copied src 0 dst (width * src.rows) shm)
    → Packed src.rows 0 src width dst shm c.after
copy-Packed src width dst shm e c = record {
  inside = λ r k lo hi l.
      ap c.after (omega arith)
      ∙ c.inside (r * width + k) (omega (arith, mul_le (r + 1) src.rows width (omega arith)))
      ∙ ap src.bytes (omega (arith, ap (λ w. r * w) e));
  outside = λ a h. c.outside a (omega arith);
}

copy_plane_fast :
    (src : Plane) (width dst : ℕ) (shm : Bytes)
    → src.is_null ≡ false
    → (src.stride == width) ≡ true
    → copy_plane src width dst shm ≡ copy src 0 dst (width * src.rows) shm
unfolding copy_plane
copy_plane_fast src width dst shm there fast = simp (there, fast) refl

copy_plane_slow :
    (src : Plane) (width dst : ℕ) (shm : Bytes)
    → src.is_null ≡ false
    → (src.stride == width) ≡ false
    → copy_plane src width dst shm ≡ copy_rows src.rows 0 src width dst shm
unfolding copy_plane
copy_plane_slow src width dst shm there slow = simp (there, slow) refl

-- The copy of a plane whose rows fit packs them at `dst`, whether its rows are padded or not.
pub copy_plane_lem :
    (src : Plane) (width dst : ℕ) (shm : Bytes)
    → src.is_null ≡ false
    → width ≤ src.stride
    → src.rows * src.stride ≤ src.size
    → dst + src.rows * width ≤ frame_shm_size
    → PlaneCopied src width dst shm
copy_plane_lem src width dst shm there wide size room = elim (Bool-cases (src.stride == width)) [
  | inl fast ↦
      let e : src.stride ≡ width = (==_iff src.stride width).0 fast in
      let c =
        copy_lem src 0 dst (width * src.rows) shm (omega (arith, size, ap (λ w. src.rows * w) e))
          (omega arith) in
      record {
        after = c.after;
        result = copy_plane_fast src width dst shm there fast ∙ c.result;
        packed = copy-Packed src width dst shm e c;
      }
  | inr slow ↦
      let (after, result, packed) =
        copy_rows_lem src.rows 0 src width dst shm wide (omega arith) (omega arith) in
      record {
        after = after;
        result = copy_plane_slow src width dst shm there slow ∙ result;
        packed = packed;
      }
]
