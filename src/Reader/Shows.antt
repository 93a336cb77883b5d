-- ===== src/Reader/Shows.antt =====
-- What the reader of Stream.swift delivers of a mapping that shows a frame.
use rtmp_vcam.Prelude.{
  ℕ, ◌+◌, ◌-◌, ◌*◌, ◌/◌, ◌≤◌, ◌<◌, ◌≡◌, refl, ap, ◌∙◌, arith, true, ltb-true, leb-true, Option,
  some, ok,
}
use rtmp_vcam.Frame.{Bytes, PixelBuffer, frame_shm_size, slot_offset, load_le}
use rtmp_vcam.Frame.Callback.{Fits, planes_fit}
use rtmp_vcam.Reader.{Picture, fill_picture, is_shown, read_latest_frame}
use rtmp_vcam.Reader.Rows.{HasRoom, PlaneRead, read_plane_lem}

-- The newest frame in the mapping is the image, packed.
pub record Shows (image : PixelBuffer) (shm : Bytes) : Type 0 where
  pub written : 0 < load_le 8 0 shm
  pub width : load_le 4 8 shm ≡ image.width
  pub height : load_le 4 12 shm ≡ image.height
  pub luma :
      (r c : ℕ)
      → r < image.height
      → c < image.width
      → shm (slot_offset (load_le 8 0 shm - 1) + r * image.width + c)
        ≡ image.y_plane.bytes (r * image.y_plane.stride + c)
  pub chroma :
      (r c : ℕ)
      → r < (image.height + 1) / 2
      → c < image.width
      → shm (slot_offset (load_le 8 0 shm - 1) + image.width * image.height + r * image.width + c)
        ≡ image.uv_plane.bytes (r * image.uv_plane.stride + c)

-- What CoreVideo makes for the dimensions: a buffer of these with room for both planes.
pub record IsPicture (w h : ℕ) (p : Picture) : Type 0 where
  pub width : p.width ≡ w
  pub height : p.height ≡ h
  pub y : HasRoom p.y h w
  pub uv : HasRoom p.uv ((h + 1) / 2) w

-- The pixels of the image stand in the picture.
pub record Delivers (image : PixelBuffer) (p : Picture) : Type 0 where
  pub width : p.width ≡ image.width
  pub height : p.height ≡ image.height
  pub luma :
      (r c : ℕ)
      → r < image.height
      → c < image.width
      → p.y.bytes (r * p.y.stride + c) ≡ image.y_plane.bytes (r * image.y_plane.stride + c)
  pub chroma :
      (r c : ℕ)
      → r < (image.height + 1) / 2
      → c < image.width
      → p.uv.bytes (r * p.uv.stride + c) ≡ image.uv_plane.bytes (r * image.uv_plane.stride + c)

-- An image of a size that is shown.
pub record IsShown (image : PixelBuffer) : Type 0 where
  pub wide : 0 < image.width
  pub high : 0 < image.height
  pub fits : Fits image

module _ (image : PixelBuffer) (shm : Bytes) (shown : IsShown image) (shows : Shows image shm)
    (p : Picture) (new : IsPicture image.width image.height p) where
  pub from : ℕ
  from = slot_offset (load_le 8 0 shm - 1)

  from_fits :
      from + image.width * image.height + (image.height + 1) / 2 * image.width ≤ frame_shm_size
  unfolding from
  from_fits = omega (arith, planes_fit image (record { shm = shm; locks = 0 }) shown.fits)

  y_read : PlaneRead shm from image.width p.y
  y_read = read_plane_lem shm from image.height image.width p.y new.y (omega (arith, from_fits))

  uv_read : PlaneRead shm (from + image.width * image.height) image.width p.uv
  uv_read =
      read_plane_lem shm (from + image.width * image.height) ((image.height + 1) / 2) image.width
        p.uv new.uv from_fits

  picture : Picture
  picture = record p { y = y_read.after; uv = uv_read.after }

  picture-Delivers : Delivers image picture
  unfolding picture from
  picture-Delivers = record {
    width = new.width;
    height = new.height;
    luma = λ r c hr hc.
        ap y_read.after.bytes (omega (arith, ap (λ k. r * k) y_read.same.stride))
        ∙ y_read.inside r c (omega (arith, new.y.count)) hc
        ∙ shows.luma r c hr hc;
    chroma = λ r c hr hc.
        ap uv_read.after.bytes (omega (arith, ap (λ k. r * k) uv_read.same.stride))
        ∙ uv_read.inside r c (omega (arith, new.uv.count)) hc
        ∙ shows.chroma r c hr hc;
  }

  filled : fill_picture shm from image.width image.height (some p) ≡ ok (some picture)
  unfolding fill_picture picture
  filled = rw (y_read.result, uv_read.result) refl

  is_shown-true : is_shown image.width image.height ≡ true
  is_shown-true =
      rw
        (
          ltb-true 0 image.width shown.wide,
          ltb-true 0 image.height shown.high,
          leb-true image.width _ shown.fits.width,
          leb-true image.height _ shown.fits.height,
        )
        refl

  pub read-Delivers :
      (create : ℕ → ℕ → Option Picture)
      → create image.width image.height ≡ some p
      → (p' : Picture) × (read_latest_frame create shm ≡ ok (some p')) × Delivers image p'
  unfolding read_latest_frame from
  read-Delivers create made = (
    picture,
    simp
        (shows.width, shows.height, ltb-true 0 (load_le 8 0 shm) shows.written, is_shown-true, made)
        filled,
    picture-Delivers,
  )
