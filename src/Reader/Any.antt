-- ===== src/Reader/Any.antt =====
-- The reader of Stream.swift over a mapping that holds anything: another program's file, or a frame
-- half written.
use rtmp_vcam.Prelude.{
  ℕ, ◌+◌, ◌-◌, ◌*◌, ◌/◌, ◌<◌, ◌≤◌, ◌≡◌, ◌⊎◌, refl, ap, sym, subst, arith, true, false, inl, inr,
  ltb, Bool-cases, Option-cases, ltb-false_inv, ltb-true_inv, Option, none, some, Result, ok, err,
}
use rtmp_vcam.Frame.{Bytes, Fault, PixelBuffer, slot_offset, load_le, max_width, max_height}
use rtmp_vcam.Reader.{Picture, fill_picture, is_shown, read_latest_frame}
use rtmp_vcam.Reader.Shows.{Shows, IsPicture, Delivers, IsShown, read-Delivers}

-- The frame that the header and the newest slot show, packed as they are.
pub stored : Bytes → PixelBuffer
stored m =
    let slot = slot_offset (load_le 8 0 m - 1) in
    let width = load_le 4 8 m in
    let height = load_le 4 12 m in
    record {
      lock_status = 0;
      width = width;
      height = height;
      y_plane = record {
        is_null = false;
        stride = width;
        rows = height;
        size = height * width;
        bytes = λ a. m (slot + a);
      };
      uv_plane = record {
        is_null = false;
        stride = width;
        rows = (height + 1) / 2;
        size = (height + 1) / 2 * width;
        bytes = λ a. m (slot + width * height + a);
      };
    }

-- CoreVideo makes a buffer as documented, or none.
pub record Creates (create : ℕ → ℕ → Option Picture) : Type 0 where
  pub made : (w h : ℕ) (p : Picture) → create w h ≡ some p → IsPicture w h p

-- Whether the mapping shows a frame at all.
abbrev pub IsVisible : Bytes → Type 0
IsVisible m = (0 < load_le 8 0 m) × (is_shown (load_le 4 8 m) (load_le 4 12 m) ≡ true)

-- Nothing is delivered where no frame is shown or no buffer is made; otherwise the stored frame.
abbrev pub IsRead : (ℕ → ℕ → Option Picture) → Bytes → Result Fault (Option Picture) → Type 0
IsRead create m (ok none) =
    (load_le 8 0 m ≡ 0)
    ⊎ (is_shown (load_le 4 8 m) (load_le 4 12 m) ≡ false)
    ⊎ (create (load_le 4 8 m) (load_le 4 12 m) ≡ none)
IsRead create m (ok (some p)) = IsVisible m × Delivers (stored m) p
IsRead create m (err e) = ⊥

stored-Shows : (m : Bytes) → 0 < load_le 8 0 m → Shows (stored m) m
unfolding stored
stored-Shows m h = record {
  written = h;
  width = refl;
  height = refl;
  luma = λ r c hr hc. ap m (omega arith);
  chroma = λ r c hr hc. ap m (omega arith);
}

shown_bounds :
    (w h : ℕ) → is_shown w h ≡ true → (0 < w) × (0 < h) × (w ≤ max_width) × (h ≤ max_height)
shown_bounds w h e = ground arith

stored-IsShown : (m : Bytes) → is_shown (load_le 4 8 m) (load_le 4 12 m) ≡ true → IsShown (stored m)
unfolding stored
stored-IsShown m e =
    let (w, h, w', h') = shown_bounds (load_le 4 8 m) (load_le 4 12 m) e in
    record { wide = w; high = h; fits = record { width = w'; height = h' } }

module _ (create : ℕ → ℕ → Option Picture) (m : Bytes) where
  read_unwritten : load_le 8 0 m ≡ 0 → read_latest_frame create m ≡ ok none
  unfolding read_latest_frame
  read_unwritten e = simp e refl

  read_unshown :
      is_shown (load_le 4 8 m) (load_le 4 12 m) ≡ false → read_latest_frame create m ≡ ok none
  unfolding read_latest_frame
  read_unshown e = elim (Bool-cases (ltb 0 (load_le 8 0 m))) [
    | inl w ↦ simp (w, e) refl
    | inr w ↦ simp w refl
  ]

  read_unmade :
      create (load_le 4 8 m) (load_le 4 12 m) ≡ none → read_latest_frame create m ≡ ok none
  unfolding read_latest_frame fill_picture
  read_unmade e = elim (Bool-cases (ltb 0 (load_le 8 0 m))) [
    | inl w ↦ elim (Bool-cases (is_shown (load_le 4 8 m) (load_le 4 12 m))) [
      | inl s ↦ simp (w, s, e) refl
      | inr s ↦ simp (w, s) refl
    ]
    | inr w ↦ simp w refl
  ]

  read_shown :
      Creates create
      → IsVisible m
      → (p : Picture) → create (load_le 4 8 m) (load_le 4 12 m) ≡ some p
      → (p' : Picture) × (read_latest_frame create m ≡ ok (some p')) × Delivers (stored m) p'
  unfolding stored
  read_shown good (written, shown) p e =
      read-Delivers (stored m) m (stored-IsShown m shown) (stored-Shows m written) p
        (good.made (load_le 4 8 m) (load_le 4 12 m) p e) create e

-- Whatever bytes the mapping holds, if CoreVideo makes buffers as documented or none: the reader
-- stays inside the mapping and its planes. It delivers nothing only where the write index is zero,
-- the dimensions are not shown or no buffer is made, and otherwise, pixel by pixel, the frame that
-- the header and the newest slot hold.
pub read_latest_frame-IsRead :
    (create : ℕ → ℕ → Option Picture) (m : Bytes)
    → Creates create
    → IsRead create m (read_latest_frame create m)
read_latest_frame-IsRead create m good = elim (Bool-cases (ltb 0 (load_le 8 0 m))) [
  | inl w ↦ elim (Bool-cases (is_shown (load_le 4 8 m) (load_le 4 12 m))) [
    | inl s ↦ elim (Option-cases (create (load_le 4 8 m) (load_le 4 12 m))) [
      | inl e ↦ subst (IsRead create m) (sym (read_unmade create m e)) (inr (inr e))
      | inr (p, e) ↦
          let visible : IsVisible m = (ltb-true_inv 0 (load_le 8 0 m) w, s) in
          let (p', result, d) = read_shown create m good visible p e in
          subst (IsRead create m) (sym result) (visible, d)
    ]
    | inr s ↦ subst (IsRead create m) (sym (read_unshown create m s)) (inr (inl s))
  ]
  | inr w ↦
      let e : load_le 8 0 m ≡ 0 = omega (arith, ltb-false_inv 0 (load_le 8 0 m) w) in
      subst (IsRead create m) (sym (read_unwritten create m e)) (inl e)
]
