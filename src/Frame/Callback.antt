-- ===== src/Frame/Callback.antt =====
-- What the callback of decoder.rs leaves in the shared frame buffer.
use native.Mathlib.Nat.{mul-le-mul}
use rtmp_vcam.Prelude.{
  ℕ, ◌+◌, ◌-◌, ◌*◌, ◌/◌, ◌%◌, ◌^◌, ◌≤◌, ◌<◌, ◌≡◌, ◌⊎◌, inl, inr, false, refl, ap, ◌∙◌, arith, some,
  ltb-false, ok,
}
use rtmp_vcam.Frame.{
  Plane, PixelBuffer, State, max_width, max_height, max_frame_size, frame_shm_size, slot_offset,
  load_le, publish, copy_frame, with_buffer, decompression_callback,
}
use rtmp_vcam.Frame.Memory.{load_le_same}
use rtmp_vcam.Frame.Rows.{PlaneCopied, copy_plane_lem}
use rtmp_vcam.Frame.Publish.{publish_others, publish_index, publish_height, publish_width}

-- The rows of a plane lie inside its buffer.
pub record HasRows (p : Plane) (rows width : ℕ) : Type 0 where
  pub there : p.is_null ≡ false
  pub count : p.rows ≡ rows
  pub wide : width ≤ p.stride
  pub room : p.rows * p.stride ≤ p.size

-- A locked NV12 buffer as CoreVideo documents it: a luma plane of all rows and a chroma plane of
-- half as many, rounded up, each with its rows in its buffer. A row of chroma is `width` bytes here,
-- those that the callback copies; where a width is odd, CoreVideo's row has one byte more, which is
-- neither copied nor spoken of.
pub record IsNv12 (image : PixelBuffer) : Type 0 where
  pub y : HasRows image.y_plane image.height image.width
  pub uv : HasRows image.uv_plane ((image.height + 1) / 2) image.width

-- The size is one that the callback accepts.
pub record Fits (image : PixelBuffer) : Type 0 where
  pub width : image.width ≤ max_width
  pub height : image.height ≤ max_height

abbrev pub write_index : State → ℕ
write_index s = load_le 8 0 s.shm

abbrev pub write_offset : State → ℕ
write_offset s = slot_offset (write_index s)

-- The frame stands packed in the slot of the old write index, the header has its size and the next
-- index, and all else is as it was: the other slot, the reserved header bytes and the lock count.
pub record Published (image : PixelBuffer) (s s' : State) : Type 0 where
  pub luma :
      (r c : ℕ)
      → r < image.height
      → c < image.width
      → s'.shm (write_offset s + r * image.width + c)
        ≡ image.y_plane.bytes (r * image.y_plane.stride + c)
  pub chroma :
      (r c : ℕ)
      → r < (image.height + 1) / 2
      → c < image.width
      → s'.shm (write_offset s + image.width * image.height + r * image.width + c)
        ≡ image.uv_plane.bytes (r * image.uv_plane.stride + c)
  pub index : write_index s' ≡ (write_index s + 1) % 2 ^ 64
  pub width : load_le 4 8 s'.shm ≡ image.width
  pub height : load_le 4 12 s'.shm ≡ image.height
  pub others :
      (a : ℕ)
      → 16 ≤ a
      → (a < write_offset s) ⊎ (write_offset s + max_frame_size ≤ a)
      → s'.shm a ≡ s.shm a
  pub locks : s'.locks ≡ s.locks

-- Both planes lie in one slot.
module _ (image : PixelBuffer) (s : State) (fits : Fits image) where
  rows_fit : (rows : ℕ) → rows ≤ 1620 → rows * image.width ≤ max_frame_size
  rows_fit rows h = mul-le-mul h fits.width

  pub planes_fit :
      image.width * image.height + (image.height + 1) / 2 * image.width ≤ max_frame_size
  planes_fit =
      omega (arith, rows_fit (image.height + (image.height + 1) / 2) (omega (arith, fits.height)))

  slot_in_shm : write_offset s + max_frame_size ≤ frame_shm_size
  slot_in_shm = omega arith

module _ (image : PixelBuffer) (s : State) (fits : Fits image) (nv12 : IsNv12 image) where
  y_copied : PlaneCopied image.y_plane image.width (write_offset s) s.shm
  y_copied =
      copy_plane_lem image.y_plane image.width (write_offset s) s.shm nv12.y.there nv12.y.wide
        nv12.y.room
        (omega (
          arith,
          slot_in_shm image s fits,
          planes_fit image s fits,
          ap (λ (r : ℕ). r * image.width) nv12.y.count,
        ))

  uv_offset : ℕ
  uv_offset = write_offset s + image.width * image.y_plane.rows

  uv_copied : PlaneCopied image.uv_plane image.width uv_offset y_copied.after
  unfolding uv_offset
  uv_copied =
      copy_plane_lem image.uv_plane image.width uv_offset y_copied.after nv12.uv.there nv12.uv.wide
        nv12.uv.room
        (omega (
          arith,
          slot_in_shm image s fits,
          planes_fit image s fits,
          ap (λ (r : ℕ). image.width * r) nv12.y.count,
          ap (λ (r : ℕ). r * image.width) nv12.uv.count,
        ))

  after : State
  after = record { shm = publish image.width image.height uv_copied.after; locks = s.locks - 1 }

  copy_frame_after : copy_frame image s ≡ ok after
  unfolding copy_frame after uv_offset
  copy_frame_after = rw (y_copied.result, uv_copied.result) refl

  -- Outside the slot the two copies change nothing.
  copied_others :
      (a : ℕ)
      → (a < write_offset s) ⊎ (write_offset s + max_frame_size ≤ a)
      → uv_copied.after a ≡ s.shm a
  unfolding uv_offset
  copied_others a (inl h) =
      uv_copied.packed.outside a (inl (omega arith)) ∙ y_copied.packed.outside a (inl (omega arith))
  copied_others a (inr h) =
      uv_copied.packed.outside a (inr (omega (arith, ends)))
      ∙ y_copied.packed.outside a (inr (omega (arith, ends)))
    where
      ends :
          (write_offset s + (0 + image.y_plane.rows) * image.width ≤ a)
          × (write_offset s
                + image.width * image.y_plane.rows
                + (0 + image.uv_plane.rows) * image.width
              ≤ a)
      ends = omega (
        arith,
        planes_fit image s fits,
        ap (λ (r : ℕ). image.width * r) nv12.y.count,
        ap (λ (r : ℕ). r * image.width) nv12.uv.count,
      )

  published_luma :
      (r c : ℕ)
      → r < image.height
      → c < image.width
      → after.shm (write_offset s + r * image.width + c)
        ≡ image.y_plane.bytes (r * image.y_plane.stride + c)
  unfolding after uv_offset
  published_luma r c hr hc =
      publish_others image.width image.height uv_copied.after (write_offset s + r * image.width + c)
        (omega arith)
      ∙ uv_copied.packed.outside (write_offset s + r * image.width + c) (
          inl (
            omega (
              arith,
              nv12.y.count,
              mul-le-mul {n₁ = r + 1} {m₁ = image.width} {n₂ = image.y_plane.rows}
                  {m₂ = image.width} (omega (arith, nv12.y.count)) (omega arith),
            )))
      ∙ y_copied.packed.inside r c (omega arith) (omega (arith, nv12.y.count)) hc

  published_chroma :
      (r c : ℕ)
      → r < (image.height + 1) / 2
      → c < image.width
      → after.shm (write_offset s + image.width * image.height + r * image.width + c)
        ≡ image.uv_plane.bytes (r * image.uv_plane.stride + c)
  unfolding after uv_offset
  published_chroma r c hr hc =
      publish_others image.width image.height uv_copied.after
        (write_offset s + image.width * image.height + r * image.width + c) (omega arith)
      ∙ ap uv_copied.after (omega (arith, ap (λ (k : ℕ). image.width * k) nv12.y.count))
      ∙ uv_copied.packed.inside r c (omega arith) (omega (arith, nv12.uv.count)) hc

  published_index : write_index after ≡ (write_index s + 1) % 2 ^ 64
  unfolding after
  published_index =
      publish_index image.width image.height uv_copied.after
      ∙ ap (λ k. (k + 1) % 2 ^ 64)
          (load_le_same 8 0 uv_copied.after s.shm (λ a p q. copied_others a (inl (omega arith))))

module _ (image : PixelBuffer) (s : State) (fits : Fits image) (nv12 : IsNv12 image) where
  abbrev pub locked : State
  locked = record s { locks = s.locks + 1 }

  after-Published : Published image s (after image locked fits nv12)
  unfolding after
  after-Published = record {
    luma = published_luma image locked fits nv12;
    chroma = published_chroma image locked fits nv12;
    index = published_index image locked fits nv12;
    width =
        publish_width image.width image.height (uv_copied image locked fits nv12).after
          (omega (arith, fits.width));
    height =
        publish_height image.width image.height (uv_copied image locked fits nv12).after
          (omega (arith, fits.height));
    others = λ a h o.
        publish_others image.width image.height (uv_copied image locked fits nv12).after a h
        ∙ copied_others image locked fits nv12 a o;
    locks = omega arith;
  }

  -- A decoded NV12 frame of an accepted size is published: the callback runs without a fault, packs
  -- both planes without their padding into the slot of the old write index, stores the dimensions
  -- and the next write index, touches nothing else of the mapping, and unlocks the buffer.
  pub callback-Published :
      image.lock_status ≡ 0
      → (s' : State) × (decompression_callback 0 (some image) s ≡ ok s') × Published image s s'
  unfolding decompression_callback with_buffer
  callback-Published lock = (
    after image locked fits nv12,
    simp
        (
          lock,
          ltb-false max_width image.width fits.width,
          ltb-false max_height image.height fits.height,
        )
        (copy_frame_after image locked fits nv12),
    after-Published,
  )
