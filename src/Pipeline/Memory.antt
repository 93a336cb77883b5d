-- ===== src/Pipeline/Memory.antt =====
-- Any run of the callbacks of decoder.rs on the shared frame buffer.
use rtmp_vcam.Prelude.{
  ℕ, ◌+◌, ◌%◌, ◌^◌, ◌≤◌, ◌<◌, ◌≡◌, ◌≢◌, ◌⊎◌, inl, inr, refl, ap, ◌∙◌, arith, Bool, Bool-cases,
  false, true, ◌==◌, ◌&&◌, leb, if◌then◌else◌, Option, none, some, List, [], ◌∷◌, ok,
}
use rtmp_vcam.Frame.{PixelBuffer, max_width, max_height, load_le, decompression_callback}
use rtmp_vcam.Frame
use rtmp_vcam.Frame.Callback.{IsNv12, Fits, write_index, callback-Published}
use rtmp_vcam.Frame.Skips.{IsSkipped, failed, null, not_locked, too_wide, too_high, callback-skips}
use rtmp_vcam.Pipeline.{Output, Shm, run_callbacks}

-- The buffers that VideoToolbox passes have the layout that CoreVideo documents for NV12.
abbrev pub IsDocumented : List Output → Type 0
IsDocumented [] = Unit
IsDocumented ((status, none) ∷ outputs) = IsDocumented outputs
IsDocumented ((status, some b) ∷ outputs) = IsNv12 b × IsDocumented outputs

-- A frame that is not skipped.
abbrev pub is_accepted : ℕ → PixelBuffer → Bool
is_accepted status b =
    status == 0 && (b.lock_status == 0 && (leb b.width max_width && leb b.height max_height))

abbrev pub accepted : List Output → ℕ
accepted [] = 0
accepted ((status, none) ∷ outputs) = accepted outputs
accepted ((status, some b) ∷ outputs) = (if is_accepted status b then 1 else 0) + accepted outputs

-- The header of the mapping is one that a reader may follow, and no pixel buffer is locked.
pub record IsSound (s : Frame.State) : Type 0 where
  pub index : write_index s < 2 ^ 64
  pub width : load_le 4 8 s.shm ≤ max_width
  pub height : load_le 4 12 s.shm ≤ max_height
  pub locks : s.locks ≡ 0

-- The mapping after some callbacks that publish `n` frames.
pub record Advanced (s : Frame.State) (n : ℕ) (shm : Shm) : Type 0 where
  pub after : Frame.State
  pub result : shm ≡ ok after
  pub index : write_index after ≡ (write_index s + n) % 2 ^ 64
  pub sound : IsSound after

skipped-Advanced :
    (status : ℕ) (image : Option PixelBuffer) (s : Frame.State)
    → IsSound s
    → IsSkipped status image
    → Advanced s 0 (decompression_callback status image s)
skipped-Advanced status image s sound skip = record {
  after = s;
  result = callback-skips status image s skip;
  index = omega (arith, sound.index);
  sound = sound;
}

why-IsSkipped :
    (status : ℕ) (b : PixelBuffer) → is_accepted status b ≡ false → IsSkipped status (some b)
why-IsSkipped status b e = elim (why status b e) [
  | inl h ↦ failed h
  | inr (inl h) ↦ not_locked b refl h
  | inr (inr (inl h)) ↦ too_wide b refl h
  | inr (inr (inr h)) ↦ too_high b refl h
]
  where
    why :
        (status : ℕ) (b : PixelBuffer)
        → is_accepted status b ≡ false
        → (status ≢ 0) ⊎ ((b.lock_status ≢ 0) ⊎ ((max_width < b.width) ⊎ (max_height < b.height)))
    why status b e = ground arith

accepted-Advanced :
    (status : ℕ) (b : PixelBuffer) (s : Frame.State)
    → IsSound s
    → IsNv12 b
    → is_accepted status b ≡ true
    → Advanced s 1 (decompression_callback status (some b) s)
accepted-Advanced status b s sound nv12 e =
    let zero_status : status ≡ 0 = ground arith in
    let fits : Fits b = record { width = ground arith; height = ground arith } in
    let (after, result, done) = callback-Published b s fits nv12 (ground arith) in
    record {
      after = after;
      result = ap (λ k. decompression_callback k (some b) s) zero_status ∙ result;
      index = done.index;
      sound = record {
        index = omega (arith, done.index);
        width = omega (arith, done.width, fits.width);
        height = omega (arith, done.height, fits.height);
        locks = done.locks ∙ sound.locks;
      };
    }

callback-Advanced :
    (status : ℕ) (b : PixelBuffer) (s : Frame.State)
    → IsSound s
    → IsNv12 b
    → Advanced s (if is_accepted status b then 1 else 0) (decompression_callback status (some b) s)
callback-Advanced status b s sound nv12 = elim (Bool-cases (is_accepted status b)) [
  | inl e ↦ rw e (accepted-Advanced status b s sound nv12 e)
  | inr e ↦ rw e (skipped-Advanced status (some b) s sound (why-IsSkipped status b e))
]

-- Whatever VideoToolbox passes to the callback in the documented layout, the callbacks access
-- nothing out of bounds, and the write index counts the frames that are not skipped; the header
-- stays within the bounds of the buffers, and no pixel buffer stays locked.
pub run_callbacks-Advanced :
    (outputs : List Output) (s : Frame.State)
    → IsDocumented outputs
    → IsSound s
    → Advanced s (accepted outputs) (run_callbacks outputs (ok s))
unfolding run_callbacks
run_callbacks-Advanced [] s doc sound = record {
  after = s;
  result = refl;
  index = omega (arith, sound.index);
  sound = sound;
}
run_callbacks-Advanced ((status, none) ∷ outputs) s doc sound =
    rw (callback-skips status none s (null refl)) (run_callbacks-Advanced outputs s doc sound)
run_callbacks-Advanced ((status, some b) ∷ outputs) s (nv12, doc) sound =
    let first = callback-Advanced status b s sound nv12 in
    let rest = run_callbacks-Advanced outputs first.after doc first.sound in
    record {
      after = rest.after;
      result = rw first.result rest.result;
      index = omega (arith, rest.index, first.index);
      sound = rest.sound;
    }
