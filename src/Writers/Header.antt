-- ===== src/Writers/Header.antt =====
-- decoder.rs: what holds of the mapping while several callbacks write.
use rtmp_vcam.Prelude.{ℕ, ◌+◌, ◌*◌, ◌%◌, ◌^◌, ◌≤◌, ◌<◌, ◌≡◌, inl, inr, refl, ap, ◌∙◌, arith, ok}
use rtmp_vcam.Frame.{Bytes, PixelBuffer, max_width, max_height, slot_offset, load_le, store_le}
use rtmp_vcam.Frame.Memory.{store_le_out, load_le_same, load_le-store_le}
use rtmp_vcam.Frame.Rows.{PlaneCopied, copy_plane_lem}
use rtmp_vcam.Frame.Callback.{IsNv12, Fits, planes_fit}
use rtmp_vcam.Writers.{Pc, idle, at_y, at_uv, at_width, at_height, at_increment, advance}

-- The frame of a callback is an NV12 frame that the callback has accepted.
abbrev pub IsProper : Pc → Type 0
IsProper idle = Unit
IsProper (at_y image i) = Fits image × IsNv12 image
IsProper (at_uv image i) = Fits image × IsNv12 image
IsProper (at_width image) = Fits image × IsNv12 image
IsProper (at_height image) = Fits image × IsNv12 image
IsProper at_increment = Unit

-- 1 if the thread runs no callback.
abbrev pub free : Pc → ℕ
free idle = 1
free (at_y image i) = 0
free (at_uv image i) = 0
free (at_width image) = 0
free (at_height image) = 0
free at_increment = 0

-- How many callbacks end with an access that leads from `pc` to `pc'`: one if a callback was running
-- and none is.
abbrev pub ends : Pc → Pc → ℕ
ends idle pc' = 0
ends (at_y image i) pc' = free pc'
ends (at_uv image i) pc' = free pc'
ends (at_width image) pc' = free pc'
ends (at_height image) pc' = free pc'
ends at_increment pc' = free pc'

-- The header: `k` frames modulo 2^64, and dimensions that a reader may follow.
pub record HasHeader (k : ℕ) (shm : Bytes) : Type 0 where
  pub index : load_le 8 0 shm ≡ k % 2 ^ 64
  pub width : load_le 4 8 shm ≤ max_width
  pub height : load_le 4 12 shm ≤ max_height

-- An access that meets no fault.
pub record Advances (k : ℕ) (pc : Pc) (shm : Bytes) : Type 0 where
  pub pc' : Pc
  pub after : Bytes
  pub result : advance pc shm ≡ ok (pc', after)
  pub proper : IsProper pc'
  pub header : HasHeader (k + ends pc pc') after

-- Writes behind the header leave it alone.
HasHeader-same :
    (k : ℕ) (shm shm' : Bytes)
    → ((a : ℕ) → a < 16 → shm' a ≡ shm a)
    → HasHeader k shm
    → HasHeader (k + 0) shm'
HasHeader-same k shm shm' same h = record {
  index = load_le_same 8 0 shm' shm (λ a p q. same a (omega arith)) ∙ h.index ∙ omega arith;
  width = omega (arith, h.width, load_le_same 4 8 shm' shm (λ a p q. same a (omega arith)));
  height = omega (arith, h.height, load_le_same 4 12 shm' shm (λ a p q. same a (omega arith)));
}

module _ (image : PixelBuffer) (write_idx k : ℕ) (shm : Bytes) (fits : Fits image)
    (nv12 : IsNv12 image) (h : HasHeader k shm) where
  y_copied : PlaneCopied image.y_plane image.width (slot_offset write_idx) shm
  y_copied =
      copy_plane_lem image.y_plane image.width (slot_offset write_idx) shm nv12.y.there nv12.y.wide
        nv12.y.room
        (omega (
          arith,
          planes_fit image (record { shm = shm; locks = 0 }) fits,
          ap (λ (r : ℕ). r * image.width) nv12.y.count,
        ))

  uv_copied :
      PlaneCopied image.uv_plane image.width
        (slot_offset write_idx + image.width * image.y_plane.rows)
        shm
  uv_copied =
      copy_plane_lem image.uv_plane image.width
        (slot_offset write_idx + image.width * image.y_plane.rows) shm nv12.uv.there nv12.uv.wide
        nv12.uv.room
        (omega (
          arith,
          planes_fit image (record { shm = shm; locks = 0 }) fits,
          ap (λ (r : ℕ). image.width * r) nv12.y.count,
          ap (λ (r : ℕ). r * image.width) nv12.uv.count,
        ))

  y-Advances : Advances k (at_y image write_idx) shm
  unfolding advance
  y-Advances = record {
    pc' = at_uv image write_idx;
    after = y_copied.after;
    result = rw y_copied.result refl;
    proper = (fits, nv12);
    header =
        HasHeader-same k shm y_copied.after (λ a p. y_copied.packed.outside a (inl (omega arith)))
          h;
  }

  uv-Advances : Advances k (at_uv image write_idx) shm
  unfolding advance
  uv-Advances = record {
    pc' = at_width image;
    after = uv_copied.after;
    result = rw uv_copied.result refl;
    proper = (fits, nv12);
    header =
        HasHeader-same k shm uv_copied.after (λ a p. uv_copied.packed.outside a (inl (omega arith)))
          h;
  }

  width_stored : HasHeader (k + 0) (store_le 4 8 (image.width % 2 ^ 32) shm)
  width_stored = record {
    index =
        load_le_same 8 0 _ shm
          (λ a p q. store_le_out 4 8 (image.width % 2 ^ 32) shm a (inl (omega arith)))
        ∙ h.index
        ∙ omega arith;
    width =
        omega (arith, fits.width, load_le-store_le 4 8 (image.width % 2 ^ 32) shm (omega arith));
    height = omega (
      arith,
      h.height,
      load_le_same 4 12 (store_le 4 8 (image.width % 2 ^ 32) shm) shm
          (λ a p q. store_le_out 4 8 (image.width % 2 ^ 32) shm a (inr (omega arith))),
    );
  }

  height_stored : HasHeader (k + 0) (store_le 4 12 (image.height % 2 ^ 32) shm)
  height_stored = record {
    index =
        load_le_same 8 0 _ shm
          (λ a p q. store_le_out 4 12 (image.height % 2 ^ 32) shm a (inl (omega arith)))
        ∙ h.index
        ∙ omega arith;
    width = omega (
      arith,
      h.width,
      load_le_same 4 8 (store_le 4 12 (image.height % 2 ^ 32) shm) shm
          (λ a p q. store_le_out 4 12 (image.height % 2 ^ 32) shm a (inl (omega arith))),
    );
    height =
        omega (arith, fits.height, load_le-store_le 4 12 (image.height % 2 ^ 32) shm (omega arith));
  }

index_stored :
    (k : ℕ) (shm : Bytes)
    → HasHeader k shm
    → HasHeader (k + 1) (store_le 8 0 ((load_le 8 0 shm + 1) % 2 ^ 64) shm)
index_stored k shm h = record {
  index =
      load_le-store_le 8 0 ((load_le 8 0 shm + 1) % 2 ^ 64) shm (omega arith)
      ∙ omega (arith, h.index);
  width = omega (
    arith,
    h.width,
    load_le_same 4 8 (store_le 8 0 ((load_le 8 0 shm + 1) % 2 ^ 64) shm) shm
        (λ a p q. store_le_out 8 0 ((load_le 8 0 shm + 1) % 2 ^ 64) shm a (inr (omega arith))),
  );
  height = omega (
    arith,
    h.height,
    load_le_same 4 12 (store_le 8 0 ((load_le 8 0 shm + 1) % 2 ^ 64) shm) shm
        (λ a p q. store_le_out 8 0 ((load_le 8 0 shm + 1) % 2 ^ 64) shm a (inr (omega arith))),
  );
}

-- Every access of a callback with a proper frame.
pub advance_lem :
    (k : ℕ) (pc : Pc) (shm : Bytes) → IsProper pc → HasHeader k shm → Advances k pc shm
unfolding advance
advance_lem k idle shm p h = record {
  pc' = idle;
  after = shm;
  result = refl;
  proper = tt;
  header = HasHeader-same k shm shm (λ a l. refl) h;
}
advance_lem k (at_y image i) shm (fits, nv12) h = y-Advances image i k shm fits nv12 h
advance_lem k (at_uv image i) shm (fits, nv12) h = uv-Advances image i k shm fits nv12 h
advance_lem k (at_width image) shm (fits, nv12) h = record {
  pc' = at_height image;
  after = _;
  result = refl;
  proper = (fits, nv12);
  header = width_stored image 0 k shm fits nv12 h;
}
advance_lem k (at_height image) shm (fits, nv12) h = record {
  pc' = at_increment;
  after = _;
  result = refl;
  proper = tt;
  header = height_stored image 0 k shm fits nv12 h;
}
advance_lem k at_increment shm p h = record {
  pc' = idle;
  after = _;
  result = refl;
  proper = tt;
  header = index_stored k shm h;
}
