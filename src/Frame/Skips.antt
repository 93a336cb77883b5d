-- ===== src/Frame/Skips.antt =====
-- The early returns of the callback of decoder.rs.
use rtmp_vcam.Prelude.{
  ℕ, ◌+◌, ◌-◌, ◌<◌, ◌≡◌, ◌≢◌, ◌⊎◌, inl, inr, Bool-cases, true, refl, ap, arith, ◌==◌, Option, none,
  some, ◌||◌, ltb, Result, ok,
}
use rtmp_vcam.Frame.{
  Fault, PixelBuffer, State, max_width, max_height, with_buffer, decompression_callback,
}

-- Why the callback leaves without a copy.
pub data IsSkipped (status : ℕ) (image : Option PixelBuffer) : Type 0 where
  failed : status ≢ 0 → IsSkipped status image
  null : image ≡ none → IsSkipped status image
  not_locked : (b : PixelBuffer) → image ≡ some b → b.lock_status ≢ 0 → IsSkipped status image
  too_wide : (b : PixelBuffer) → image ≡ some b → max_width < b.width → IsSkipped status image
  too_high : (b : PixelBuffer) → image ≡ some b → max_height < b.height → IsSkipped status image

-- The callback with a buffer that it does not accept.
with_buffer_skips :
    (b : PixelBuffer) (s : State)
    → (b.lock_status ≢ 0) ⊎ ((max_width < b.width) ⊎ (max_height < b.height))
    → with_buffer b s ≡ ok s
unfolding with_buffer
with_buffer_skips b s (inl h) = ground arith
with_buffer_skips b s (inr h) = elim (Bool-cases (b.lock_status == 0)) [
  | inl locked ↦ simp (locked, too_large) unlocked
  | inr e ↦ simp e refl
]
  where
    too_large : (ltb max_width b.width || ltb max_height b.height) ≡ true
    too_large = ground arith

    unlocked : ◌≡◌ {A = Result Fault State} (ok (record s { locks = s.locks + 1 - 1 })) (ok s)
    unlocked = ap (λ k. ok (record s { locks = k })) (omega arith)

callback_with :
    (status : ℕ) (b : PixelBuffer) (s : State)
    → with_buffer b s ≡ ok s
    → decompression_callback status (some b) s ≡ ok s
unfolding decompression_callback
callback_with status b s e = ground arith

-- A frame that was not decoded, is missing, cannot be locked or is too large is skipped: the
-- mapping and the lock count are as they were.
pub callback-skips :
    (status : ℕ) (image : Option PixelBuffer) (s : State)
    → IsSkipped status image
    → decompression_callback status image s ≡ ok s
unfolding decompression_callback
callback-skips status image s (failed h) = ground arith
callback-skips status image s (null e) = ground arith
callback-skips status image s (not_locked b e h) =
    rw e (callback_with status b s (with_buffer_skips b s (inl h)))
callback-skips status image s (too_wide b e h) =
    rw e (callback_with status b s (with_buffer_skips b s (inr (inl h))))
callback-skips status image s (too_high b e h) =
    rw e (callback_with status b s (with_buffer_skips b s (inr (inr h))))
