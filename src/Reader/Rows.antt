-- ===== src/Reader/Rows.antt =====
-- The reader's copy of a plane, byte by byte.
use rtmp_vcam.Prelude.{
  ℕ, zero, suc, ◌+◌, ◌-◌, ◌*◌, ◌≤◌, ◌<◌, ◌≡◌, ◌⊎◌, inl, inr, Bool-cases, true, false, refl, ap, ◌∙◌,
  arith, leb, ltb, ◌&&◌, if◌then◌else◌, ◌>>=◌, ◌==◌, ==_iff, ltb-false, ltb-true, leb-true, ok,
}
use rtmp_vcam.Frame.{Bytes, frame_shm_size}
use rtmp_vcam.Reader.{Target, memcpy, read_rows, read_plane}

-- All but the bytes of a plane stays.
pub record SamePlane (dst after : Target) : Type 0 where
  pub stride : after.stride ≡ dst.stride
  pub rows : after.rows ≡ dst.rows
  pub size : after.size ≡ dst.size

SamePlane-trans : (a b c : Target) → SamePlane a b → SamePlane b c → SamePlane a c
SamePlane-trans a b c p q = ground arith

-- A copy inside both buffers.
pub record Loaded (shm : Bytes) (from to n : ℕ) (dst : Target) : Type 0 where
  pub after : Target
  pub result : memcpy shm from to n dst ≡ ok after
  pub same : SamePlane dst after
  pub inside : (k : ℕ) → k < n → after.bytes (to + k) ≡ shm (from + k)
  pub outside : (a : ℕ) → (a < to) ⊎ (to + n ≤ a) → after.bytes a ≡ dst.bytes a

memcpy_lem :
    (shm : Bytes) (from to n : ℕ) (dst : Target)
    → from + n ≤ frame_shm_size
    → to + n ≤ dst.size
    → Loaded shm from to n dst
unfolding memcpy
memcpy_lem shm from to n dst p q = record {
  after = record dst {
    bytes = λ a. if leb to a && ltb a (to + n) then shm (from + (a - to)) else dst.bytes a;
  };
  result = rw (ltb-false _ _ p, ltb-false _ _ q) refl;
  same = record { stride = refl; rows = refl; size = refl };
  inside = λ k h.
      rw (leb-true to (to + k) (omega arith), ltb-true (to + k) (to + n) (omega arith))
        (ap shm (omega arith));
  outside = λ a h. ground arith;
}

-- The packed rows at `src` from `row` on stand in the plane, with nothing before them changed.
pub record Unpacked (n row : ℕ) (shm : Bytes) (src width stride : ℕ) (before after : Bytes)
    : Type 0 where
  pub inside :
      (r c : ℕ)
      → row ≤ r
      → r < row + n
      → c < width
      → after (r * stride + c) ≡ shm (src + r * width + c)
  pub outside : (a : ℕ) → a < row * stride → after a ≡ before a

mul_le : (a b w : ℕ) → a ≤ b → a * w ≤ b * w
mul_le a b w h = grind arith

module _ (n row : ℕ) (shm : Bytes) (src width stride : ℕ) (dst : Target) (after : Bytes)
    (wide : width ≤ stride) (first : Loaded shm (src + row * width) (row * stride) width dst)
    (rest : Unpacked n (row + 1) shm src width stride first.after.bytes after) where
  Unpacked-cons : Unpacked (suc n) row shm src width stride dst.bytes after
  Unpacked-cons = record {
    inside = λ r c lo hi l. elim (Bool-cases (r == row)) [
      | inl same ↦
          let e : r ≡ row = (==_iff r row).0 same in
          rw e (rest.outside (row * stride + c) (omega arith) ∙ first.inside c l)
      | inr other ↦ rest.inside r c (ground arith) (omega arith) l
    ];
    outside = λ a h. rest.outside a (omega arith) ∙ first.outside a (inl h);
  }

read_rows_lem :
    (n row : ℕ) (shm : Bytes) (src width stride : ℕ) (dst : Target)
    → dst.stride ≡ stride
    → width ≤ stride
    → (row + n) * stride ≤ dst.size
    → src + (row + n) * width ≤ frame_shm_size
    → (after : Target) × (read_rows n row shm src width dst ≡ ok after)
      × SamePlane dst after
      × Unpacked n row shm src width stride dst.bytes after.bytes
unfolding read_rows
read_rows_lem zero row shm src width stride dst e p q s = (
  dst,
  refl,
  record { stride = refl; rows = refl; size = refl },
  record { inside = λ r c h h' l. absurd (omega arith); outside = λ a h. refl },
)
read_rows_lem (suc n) row shm src width stride dst e p q s =
    let first =
      memcpy_lem shm (src + row * width) (row * stride) width dst
        (omega (arith, mul_le (row + 1) (row + suc n) width (omega arith)))
        (omega (arith, mul_le (row + 1) (row + suc n) stride (omega arith))) in
    let (after, result, same, unpacked) =
      read_rows_lem n (row + 1) shm src width stride first.after (first.same.stride ∙ e) p
        (omega (arith, q, first.same.size)) (omega (arith, s)) in
    (
      after,
      ap
            (λ k. memcpy shm (src + row * width) (row * k) width dst >>= λ d.
              read_rows n (row + 1) shm src width d)
            e
          ∙ rw first.result result,
      SamePlane-trans dst first.after after first.same same,
      Unpacked-cons n row shm src width stride dst after.bytes p first unpacked,
    )

-- A plane with room for `rows` rows of `width` bytes.
pub record HasRoom (p : Target) (rows width : ℕ) : Type 0 where
  pub there : p.is_nil ≡ false
  pub count : p.rows ≡ rows
  pub wide : width ≤ p.stride
  pub room : p.rows * p.stride ≤ p.size

-- The rows of the packed plane at `src` stand in the plane.
pub record PlaneRead (shm : Bytes) (src width : ℕ) (dst : Target) : Type 0 where
  pub after : Target
  pub result : read_plane shm src width dst ≡ ok after
  pub same : SamePlane dst after
  pub inside :
      (r c : ℕ)
      → r < dst.rows
      → c < width
      → after.bytes (r * dst.stride + c) ≡ shm (src + r * width + c)

read_plane_fast :
    (shm : Bytes) (src width : ℕ) (dst : Target)
    → dst.is_nil ≡ false
    → (dst.stride == width) ≡ true
    → read_plane shm src width dst ≡ memcpy shm src 0 (width * dst.rows) dst
unfolding read_plane
read_plane_fast shm src width dst there fast = simp (there, fast) refl

read_plane_slow :
    (shm : Bytes) (src width : ℕ) (dst : Target)
    → dst.is_nil ≡ false
    → (dst.stride == width) ≡ false
    → read_plane shm src width dst ≡ read_rows dst.rows 0 shm src width dst
unfolding read_plane
read_plane_slow shm src width dst there slow = simp (there, slow) refl

pub read_plane_lem :
    (shm : Bytes) (src rows width : ℕ) (dst : Target)
    → HasRoom dst rows width
    → src + rows * width ≤ frame_shm_size
    → PlaneRead shm src width dst
read_plane_lem shm src rows width dst has fits = elim (Bool-cases (dst.stride == width)) [
  | inl fast ↦
      let e : dst.stride ≡ width = (==_iff dst.stride width).0 fast in
      let m =
        memcpy_lem shm src 0 (width * dst.rows) dst (omega (arith, ap (λ r. r * width) has.count))
          (omega (arith, has.room, ap (λ w. dst.rows * w) e)) in
      record {
        after = m.after;
        result = read_plane_fast shm src width dst has.there fast ∙ m.result;
        same = m.same;
        inside = λ r c h l.
            ap m.after.bytes (omega (arith, ap (λ w. r * w) e))
            ∙ m.inside (r * width + c) (omega (arith, mul_le (r + 1) dst.rows width (omega arith)))
            ∙ ap shm (omega arith);
      }
  | inr slow ↦
      let (after, result, same, unpacked) =
        read_rows_lem dst.rows 0 shm src width dst.stride dst refl has.wide
          (omega (arith, has.room)) (omega (arith, ap (λ r. r * width) has.count)) in
      record {
        after = after;
        result = read_plane_slow shm src width dst has.there slow ∙ result;
        same = same;
        inside = λ r c h l. unpacked.inside r c (omega arith) (omega arith) l;
      }
]
