-- ===== src/Frame/Tests.antt =====
-- The callback of decoder.rs on small frames, and its theorems there.
use rtmp_vcam.Prelude.{
  ℕ, ◌+◌, ◌≡◌, refl, arith, false, some, Result, ok, err, map, ◌==◌, if◌then◌else◌, List, [], ◌∷◌,
}
use rtmp_vcam.Frame.{
  Bytes, Fault, out_of_bounds, PixelBuffer, State, copy, copy_rows, copy_plane, publish, copy_frame,
  with_buffer, decompression_callback,
}
use rtmp_vcam.Frame.Rows.{Packed}
use rtmp_vcam.Frame.Planes.{copy_plane-copy_rows}
use rtmp_vcam.Frame.Callback.{IsNv12, Fits, Published, callback-Published}
use rtmp_vcam.Frame.Skips.{too_wide, callback-skips}

-- Two rows of three bytes with one byte of padding, and one row of chroma without.
abbrev image : PixelBuffer
image = record {
  lock_status = 0;
  width = 3;
  height = 2;
  y_plane = record { is_null = false; stride = 4; rows = 2; size = 8; bytes = λ a. 10 + a };
  uv_plane = record { is_null = false; stride = 3; rows = 1; size = 3; bytes = λ a. 50 + a };
}

-- The write index is 1.
abbrev start : State
start = record { shm = λ a. if a == 0 then 1 else 0; locks = 0 }

abbrev view : List ℕ → Result Fault State → List ℕ
view at (ok s) = map s.shm at
view at (err e) = []

-- The second slot begins at 64 + 3110400.
copies :
    view
      (0 ∷ 8 ∷ 12 ∷ 64 ∷ 3110464 ∷ 3110466 ∷ 3110467 ∷ 3110469 ∷ 3110470 ∷ 3110472 ∷ 3110473 ∷ [])
      (decompression_callback 0 (some image) start)
    ≡ 2 ∷ 3 ∷ 2 ∷ 0 ∷ 10 ∷ 12 ∷ 14 ∷ 16 ∷ 50 ∷ 52 ∷ 0 ∷ []
unfolding decompression_callback with_buffer copy_frame copy_plane copy copy_rows publish
copies = refl

-- A chroma plane that claims more rows than its buffer holds would be read out of bounds.
abbrev short_image : PixelBuffer
short_image = record image {
  uv_plane = record { is_null = false; stride = 3; rows = 2; size = 3; bytes = λ a. 50 + a };
}

faults : decompression_callback 0 (some short_image) start ≡ err out_of_bounds
unfolding decompression_callback with_buffer copy_frame copy_plane copy copy_rows publish
faults = refl

image-Fits : Fits image
image-Fits = omega arith

image-IsNv12 : IsNv12 image
image-IsNv12 = record {
  y = record { there = refl; count = refl; wide = omega arith; room = omega arith };
  uv = record { there = refl; count = refl; wide = omega arith; room = omega arith };
}

callback-Published_example :
    (s' : State) × (decompression_callback 0 (some image) start ≡ ok s') × Published image start s'
callback-Published_example = callback-Published image start image-Fits image-IsNv12 refl

abbrev wide_image : PixelBuffer
wide_image = record image { width = 1921 }

callback-skips_example : decompression_callback 0 (some wide_image) start ≡ ok start
callback-skips_example =
    callback-skips 0 (some wide_image) start (too_wide wide_image refl (omega arith))

-- Two padded rows.
copy_plane-copy_rows_example :
    (after : Bytes) × (copy_rows 2 0 image.y_plane 3 100 start.shm ≡ ok after)
    × Packed 2 0 image.y_plane 3 100 start.shm after
    × (copy_plane image.y_plane 3 100 start.shm ≡ ok after)
copy_plane-copy_rows_example =
    copy_plane-copy_rows image.y_plane 3 100 start.shm (omega arith) (omega arith) (omega arith)
