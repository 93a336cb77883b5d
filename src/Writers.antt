-- ===== src/Writers.antt =====
-- crates/video-pipeline/src/decoder.rs: several callbacks at once on one shared frame buffer, as
-- when two connections decode at the same time. No lock keeps them apart.
-- A callback that has accepted its frame makes its accesses to the mapping one by one: the load of
-- the write index, the copy of each plane, the two dimensions, and the atomic increment.
mod Alone
mod Header
mod Steady
mod Tests
use rtmp_vcam.Prelude.{
  ℕ, zero, suc, ◌+◌, ◌*◌, ◌%◌, ◌^◌, ◌≡◌, List, [], ◌∷◌, ◌++◌, Result, ok, err, ◌>>=◌, replicate,
}
use rtmp_vcam.Frame.{Bytes, Fault, PixelBuffer, slot_offset, load_le, store_le, copy_plane}
use rtmp_vcam.Frame.Callback.{IsNv12, Fits}

-- Where a callback stands, with the local variables that are live there.
pub data Pc : Type 0 where
  idle : Pc
  at_y at_uv : (image : PixelBuffer) (write_idx : ℕ) → Pc
  at_width at_height : (image : PixelBuffer) → Pc
  at_increment : Pc

-- The load of the write index.
abbrev pub enter : PixelBuffer → Bytes → Pc
enter image shm = at_y image (load_le 8 0 shm)

-- The next access.
unfoldable pub advance : Pc → Bytes → Result Fault (Pc × Bytes)
advance idle shm = ok (idle, shm)
advance (at_y image write_idx) shm = do
  shm' ← copy_plane image.y_plane image.width (slot_offset write_idx) shm
  ok (at_uv image write_idx, shm')
advance (at_uv image write_idx) shm = do
  shm' ←
      copy_plane image.uv_plane image.width
        (slot_offset write_idx + image.width * image.y_plane.rows) shm
  ok (at_width image, shm')
advance (at_width image) shm = ok (at_height image, store_le 4 8 (image.width % 2 ^ 32) shm)
advance (at_height image) shm = ok (at_increment, store_le 4 12 (image.height % 2 ^ 32) shm)
advance at_increment shm = ok (idle, store_le 8 0 ((load_le 8 0 shm + 1) % 2 ^ 64) shm)

-- The next `n` accesses of a callback that is not disturbed.
unfoldable pub advances : ℕ → Pc → Bytes → Result Fault (Pc × Bytes)
advances zero pc shm = ok (pc, shm)
advances (suc n) pc shm = do (pc', shm') ← advance pc shm; advances n pc' shm'

pub record Writers : Type 0 where
  pub shm : Bytes
  pub pcs : List Pc

-- One callback, behind `before` and in front of `behind` in the list, makes an access.
pub data Step (s t : Writers) : Type 0 where
  enters :
      (before behind : List Pc) (image : PixelBuffer)
      → Fits image
      → IsNv12 image
      → s.pcs ≡ before ++ idle ∷ behind
      → t ≡ record s { pcs = before ++ enter image s.shm ∷ behind }
      → Step s t
  moves :
      (before behind : List Pc) (pc pc' : Pc) (shm : Bytes)
      → s.pcs ≡ before ++ pc ∷ behind
      → advance pc s.shm ≡ ok (pc', shm)
      → t ≡ record { shm = shm; pcs = before ++ pc' ∷ behind }
      → Step s t

-- A zeroed header, and `n` threads that may run callbacks.
abbrev pub start : ℕ → Writers
start n = record { shm = λ a. 0; pcs = replicate n idle }

pub data Reach (n : ℕ) : Writers → Type 0 where
  here : Reach n (start n)
  next : {s t : Writers} → Reach n s → Step s t → Reach n t
