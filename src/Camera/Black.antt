-- ===== src/Camera/Black.antt =====
-- Stream.swift: the placeholder frame is black.
use rtmp_vcam.Prelude.{
  ℕ, ◌+◌, ◌*◌, ◌/◌, ◌≤◌, ◌<◌, ◌≡◌, refl, arith, ltb, ltb-true, ltb-false, if◌then◌else◌, ok,
}
use rtmp_vcam.Reader.{Target, Picture}
use rtmp_vcam.Reader.Rows.{HasRoom}
use rtmp_vcam.Reader.Shows.{IsPicture}
use rtmp_vcam.Camera.{fill_plane, fill_black}

-- Both planes hold one value each, in the rows of the picture.
pub record IsBlack (w h : ℕ) (p : Picture) : Type 0 where
  pub width : p.width ≡ w
  pub height : p.height ≡ h
  pub luma : (r c : ℕ) → r < h → c < w → p.y.bytes (r * p.y.stride + c) ≡ 0
  pub chroma : (r c : ℕ) → r < (h + 1) / 2 → c < w → p.uv.bytes (r * p.uv.stride + c) ≡ 128

mul_le : (a b w : ℕ) → a ≤ b → a * w ≤ b * w
mul_le a b w h = grind arith

module _ (value rows width : ℕ) (dst : Target) (room : HasRoom dst rows width) where
  blank : Target
  blank = record dst { bytes = λ a. if ltb a (dst.rows * dst.stride) then value else dst.bytes a }

  fill_plane-blank : fill_plane value dst ≡ ok blank
  unfolding fill_plane blank
  fill_plane-blank = simp (room.there, ltb-false dst.size (dst.rows * dst.stride) room.room) refl

  blank-bytes : (r c : ℕ) → r < rows → c < width → blank.bytes (r * blank.stride + c) ≡ value
  unfolding blank
  blank-bytes r c hr hc =
      let end : (r + 1) * dst.stride ≤ dst.rows * dst.stride =
        mul_le (r + 1) dst.rows dst.stride (omega (arith, room.count)) in
      rw (ltb-true (r * dst.stride + c) (dst.rows * dst.stride) (omega (arith, room.wide, end)))
        refl

pub fill_black-IsBlack :
    (w h : ℕ) (p : Picture)
    → IsPicture w h p
    → (p' : Picture) × (fill_black p ≡ ok p') × IsBlack w h p'
unfolding fill_black blank
fill_black-IsBlack w h p new = (
  record p { y = blank 0 h w p.y new.y; uv = blank 128 ((h + 1) / 2) w p.uv new.uv },
  rw (fill_plane-blank 0 h w p.y new.y, fill_plane-blank 128 ((h + 1) / 2) w p.uv new.uv) refl,
  record {
    width = new.width;
    height = new.height;
    luma = blank-bytes 0 h w p.y new.y;
    chroma = blank-bytes 128 ((h + 1) / 2) w p.uv new.uv;
  },
)
