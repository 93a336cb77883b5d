-- ===== src/Reader/Tests.antt =====
-- Small frames from the writer to the reader, and the theorems there.
use rtmp_vcam.Prelude.{
  ℕ, ◌+◌, ◌*◌, ◌≡◌, refl, arith, false, Option, none, some, Result, ok, err, map, ◌++◌, inr, ltb,
  ltb-false, if◌then◌else◌, List, [], ◌∷◌,
}
use rtmp_vcam.Frame.{
  Bytes, Fault, PixelBuffer, State, copy, copy_rows, copy_plane, publish, copy_frame, with_buffer,
  decompression_callback,
}
use rtmp_vcam.Frame.Callback.{IsNv12}
use rtmp_vcam.Reader.{
  Target, Picture, memcpy, read_rows, read_plane, fill_picture, read_latest_frame,
}
use rtmp_vcam.Reader.Frames.{LoadsDuring, callback-Delivers, during-Delivers}
use rtmp_vcam.Reader.Shows.{IsPicture, Delivers, IsShown}

-- Two rows of two bytes with two of padding, and one row of chroma, beginning with `b`.
abbrev image : ℕ → PixelBuffer
image b = record {
  lock_status = 0;
  width = 2;
  height = 2;
  y_plane = record { is_null = false; stride = 4; rows = 2; size = 8; bytes = λ a. b + a };
  uv_plane = record { is_null = false; stride = 2; rows = 1; size = 2; bytes = λ a. b + 50 + a };
}

abbrev zeros : State
zeros = record { shm = λ a. 0; locks = 0 }

-- A plane whose rows stand three bytes apart.
abbrev target : ℕ → Target
target rows = record { is_nil = false; stride = 3; rows = rows; size = 3 * rows; bytes = λ a. 9 }

abbrev new_picture : ℕ → ℕ → Picture
new_picture width height = record {
  width = width;
  height = height;
  y = target height;
  uv = target 1;
}

abbrev create : ℕ → ℕ → Option Picture
create width height = some (new_picture width height)

abbrev view : Result Fault (Option Picture) → List ℕ
view (ok (some p)) = map p.y.bytes (0 ∷ 1 ∷ 2 ∷ 3 ∷ 4 ∷ 5 ∷ []) ++ map p.uv.bytes (0 ∷ 1 ∷ 2 ∷ [])
view (ok none) = []
view (err e) = []

abbrev after : Result Fault State → State
after (ok s) = s
after (err e) = zeros

abbrev first : State
first = after (decompression_callback 0 (some (image 10)) zeros)

nothing_yet : read_latest_frame create zeros.shm ≡ ok none
unfolding read_latest_frame
nothing_yet = refl

delivered : view (read_latest_frame create first.shm) ≡ 10 ∷ 11 ∷ 9 ∷ 14 ∷ 15 ∷ 9 ∷ 60 ∷ 61 ∷ 9 ∷ []
unfolding read_latest_frame fill_picture read_plane read_rows memcpy decompression_callback
    with_buffer copy_frame copy_plane copy copy_rows publish
delivered = refl

image-IsNv12 : (b : ℕ) → IsNv12 (image b)
image-IsNv12 b = record {
  y = record { there = refl; count = refl; wide = omega arith; room = omega arith };
  uv = record { there = refl; count = refl; wide = omega arith; room = omega arith };
}

image-IsShown : (b : ℕ) → IsShown (image b)
image-IsShown b = omega arith

new-IsPicture : IsPicture 2 2 (new_picture 2 2)
new-IsPicture = record {
  width = refl;
  height = refl;
  y = record { there = refl; count = refl; wide = omega arith; room = omega arith };
  uv = record { there = refl; count = refl; wide = omega arith; room = omega arith };
}

callback-Delivers_example :
    (s' : State) × (p' : Picture) × (decompression_callback 0 (some (image 10)) zeros ≡ ok s')
    × (read_latest_frame create s'.shm ≡ ok (some p'))
    × Delivers (image 10) p'
callback-Delivers_example =
    callback-Delivers (image 10) zeros create (new_picture 2 2) (image-IsShown 10) (image-IsNv12 10)
      refl (omega arith) refl new-IsPicture

abbrev second : State
second = after (decompression_callback 0 (some (image 30)) first)

-- The index from before the second callback, everything else from behind it.
abbrev mixed : Bytes
mixed a = if ltb a 8 then first.shm a else second.shm a

mixed-LoadsDuring : LoadsDuring first second mixed
unfolding decompression_callback with_buffer copy_frame copy_plane copy copy_rows publish
mixed-LoadsDuring = record {
  index = refl;
  width = inr refl;
  height = inr refl;
  bytes = λ a h. inr (rw (ltb-false a 8 (omega arith)) refl);
}

during-Delivers_example :
    (p' : Picture) × (read_latest_frame create mixed ≡ ok (some p')) × Delivers (image 10) p'
unfolding decompression_callback with_buffer copy_frame copy_plane copy copy_rows publish
during-Delivers_example =
    during-Delivers (image 10) (image 30) zeros first second mixed create (new_picture 2 2)
      (image-IsShown 10) (image-IsNv12 10) refl (image-IsNv12 30) refl refl refl (omega arith) refl
      refl mixed-LoadsDuring refl new-IsPicture

-- A frame of two rows of one byte comes next. With the old index and the new width, the pixels of
-- the old frame are taken apart at the wrong places: its second row begins at its second pixel.
abbrev narrow : PixelBuffer
narrow = record (image 30) { width = 1 }

abbrev third : State
third = after (decompression_callback 0 (some narrow) first)

torn :
    view (read_latest_frame create (λ a. if ltb a 8 then first.shm a else third.shm a))
    ≡ 10 ∷ 9 ∷ 9 ∷ 11 ∷ 9 ∷ 9 ∷ 14 ∷ 9 ∷ 9 ∷ []
unfolding read_latest_frame fill_picture read_plane read_rows memcpy decompression_callback
    with_buffer copy_frame copy_plane copy copy_rows publish
torn = refl
