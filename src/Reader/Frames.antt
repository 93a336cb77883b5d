-- ===== src/Reader/Frames.antt =====
-- Writer and reader of the shared frame buffer: what decoder.rs publishes is what Stream.swift
-- delivers, also while the next frame is written.
use rtmp_vcam.Prelude.{
  ℕ, ◌+◌, ◌-◌, ◌*◌, ◌/◌, ◌^◌, ◌≤◌, ◌<◌, ◌≡◌, ◌⊎◌, inl, inr, sym, ap, subst, ◌∙◌, arith, Option,
  some, Result, ok,
}
use rtmp_vcam.Frame.{
  Bytes, PixelBuffer, State, max_frame_size, slot_offset, load_le, decompression_callback,
}
use rtmp_vcam.Frame.Callback.{IsNv12, Fits, Published, write_index, callback-Published, planes_fit}
use rtmp_vcam.Reader.{Picture, read_latest_frame}
use rtmp_vcam.Reader.Shows.{Shows, IsPicture, Delivers, IsShown, read-Delivers}

-- The newest frame after a callback.
Published-Shows :
    (image : PixelBuffer) (s s' : State)
    → write_index s + 1 < 2 ^ 64
    → Published image s s'
    → Shows image s'.shm
Published-Shows image s s' small done = record {
  written = omega (arith, done.index);
  width = done.width;
  height = done.height;
  luma = λ r c hr hc. ap s'.shm (omega (arith, done.index)) ∙ done.luma r c hr hc;
  chroma = λ r c hr hc. ap s'.shm (omega (arith, done.index)) ∙ done.chroma r c hr hc;
}

ok_injective : {E A : Type 0} {x y : A} → ◌≡◌ {A = Result E A} (ok x) (ok y) → x ≡ y
ok_injective e = cc

mul_le : (a b w : ℕ) → a ≤ b → a * w ≤ b * w
mul_le a b w h = grind arith

-- What the callback publishes, the reader delivers: both planes, pixel by pixel, for an NV12 frame
-- of a size that is shown, a write index that does not wrap, and a new buffer of that size.
pub callback-Delivers :
    (image : PixelBuffer) (s : State) (create : ℕ → ℕ → Option Picture) (p : Picture)
    → IsShown image
    → IsNv12 image
    → image.lock_status ≡ 0
    → write_index s + 1 < 2 ^ 64
    → create image.width image.height ≡ some p
    → IsPicture image.width image.height p
    → (s' : State) × (p' : Picture) × (decompression_callback 0 (some image) s ≡ ok s')
      × (read_latest_frame create s'.shm ≡ ok (some p'))
      × Delivers image p'
callback-Delivers image s create p shown nv12 lock small made new =
    let (s', run, done) = callback-Published image s shown.fits nv12 lock in
    let (p', result, d) =
      read-Delivers image s'.shm shown (Published-Shows image s s' small done) p new create made in
    (s', p', run, result, d)

-- Whatever the callback returns for such a frame is what is published.
pub run-Published :
    (image : PixelBuffer) (s s' : State)
    → Fits image
    → IsNv12 image
    → image.lock_status ≡ 0
    → decompression_callback 0 (some image) s ≡ ok s'
    → Published image s s'
run-Published image s s' fits nv12 lock e =
    let (t, run, done) = callback-Published image s fits nv12 lock in
    subst (Published image s) (ok_injective (sym run ∙ e)) done

-- What the reader may load while a callback takes the mapping from the first state to the second:
-- the write index from before its increment, and the dimensions and each byte of the slots from
-- before or after the callback's writes.
pub record LoadsDuring (s s' : State) (m : Bytes) : Type 0 where
  pub index : load_le 8 0 m ≡ write_index s
  pub width : (load_le 4 8 m ≡ load_le 4 8 s.shm) ⊎ (load_le 4 8 m ≡ load_le 4 8 s'.shm)
  pub height : (load_le 4 12 m ≡ load_le 4 12 s.shm) ⊎ (load_le 4 12 m ≡ load_le 4 12 s'.shm)
  pub bytes : (a : ℕ) → 16 ≤ a → (m a ≡ s.shm a) ⊎ (m a ≡ s'.shm a)

either : {A : Type 0} {x y z : A} → (x ≡ y) ⊎ (x ≡ z) → z ≡ y → x ≡ y
either (inl e) q = e
either (inr e) q = e ∙ q

module _ (image next : PixelBuffer) (s s' : State) (m : Bytes) (fits : Fits image)
    (shows : Shows image s.shm) (done : Published next s s') (loads : LoadsDuring s s' m)
    (wide : next.width ≡ image.width) (high : next.height ≡ image.height) where
  -- The callback leaves the slot of the newest frame alone.
  still :
      (k : ℕ)
      → k < max_frame_size
      → m (slot_offset (write_index s - 1) + k) ≡ s.shm (slot_offset (write_index s - 1) + k)
  still k h = either (loads.bytes (slot_offset (write_index s - 1) + k) (omega arith)) (
      done.others (slot_offset (write_index s - 1) + k) (omega arith)
        (omega (arith, shows.written)))

  -- A pixel of a plane that stands in the slot.
  still_pixel :
      (k : ℕ)
      → k < max_frame_size
      → m (slot_offset (load_le 8 0 m - 1) + k) ≡ s.shm (slot_offset (write_index s - 1) + k)
  still_pixel k h = ap (λ i. m (slot_offset (i - 1) + k)) loads.index ∙ still k h

  row_end : (r c rows : ℕ) → r < rows → c < image.width → r * image.width + c < rows * image.width
  row_end r c rows hr hc = omega (arith, mul_le (r + 1) rows image.width (omega arith))

  LoadsDuring-Shows : Shows image m
  LoadsDuring-Shows = record {
    written = omega (arith, shows.written, loads.index);
    width = either loads.width (done.width ∙ wide ∙ sym shows.width) ∙ shows.width;
    height = either loads.height (done.height ∙ high ∙ sym shows.height) ∙ shows.height;
    luma = λ r c hr hc.
        ap m (omega arith)
        ∙ still_pixel (r * image.width + c)
            (omega (arith, row_end r c image.height hr hc, planes_fit image s fits))
        ∙ ap s.shm (omega arith)
        ∙ shows.luma r c hr hc;
    chroma = λ r c hr hc.
        ap m (omega arith)
        ∙ still_pixel (image.width * image.height + r * image.width + c)
            (omega (arith, row_end r c ((image.height + 1) / 2) hr hc, planes_fit image s fits))
        ∙ ap s.shm (omega arith)
        ∙ shows.chroma r c hr hc;
  }

-- Double buffering: after a frame is published, the reader delivers it also if its loads fall in
-- any mixture before, within and behind the writes of the next callback, as long as it has loaded
-- the write index before that callback increments it and the dimensions do not change.
pub during-Delivers :
    (image next : PixelBuffer) (s s' s'' : State) (m : Bytes) (create : ℕ → ℕ → Option Picture)
    (p : Picture)
    → IsShown image
    → IsNv12 image
    → image.lock_status ≡ 0
    → IsNv12 next
    → next.lock_status ≡ 0
    → next.width ≡ image.width
    → next.height ≡ image.height
    → write_index s + 1 < 2 ^ 64
    → decompression_callback 0 (some image) s ≡ ok s'
    → decompression_callback 0 (some next) s' ≡ ok s''
    → LoadsDuring s' s'' m
    → create image.width image.height ≡ some p
    → IsPicture image.width image.height p
    → (p' : Picture) × (read_latest_frame create m ≡ ok (some p')) × Delivers image p'
during-Delivers image next s s' s'' m create p shown nv12 lock nv12' lock' wide high small e e'
      loads made new =
    let fits' : Fits next = record {
      width = omega (arith, wide, shown.fits.width);
      height = omega (arith, high, shown.fits.height);
    } in
    let done = run-Published image s s' shown.fits nv12 lock e in
    let done' = run-Published next s' s'' fits' nv12' lock' e' in
    let shows = Published-Shows image s s' small done in
    read-Delivers image m shown
      (LoadsDuring-Shows image next s' s'' m shown.fits shows done' loads wide high) p new create
      made
