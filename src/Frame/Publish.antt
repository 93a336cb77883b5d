-- ===== src/Frame/Publish.antt =====
-- What publishing a frame does to the header, and that it does nothing else.
use rtmp_vcam.Prelude.{ℕ, ◌+◌, ◌%◌, ◌^◌, ◌≤◌, ◌<◌, ◌≡◌, ◌⊎◌, inl, inr, ap, ◌∙◌, arith}
use rtmp_vcam.Frame.{Bytes, load_le, store_le, publish}
use rtmp_vcam.Frame.Memory.{store_le_out, load_le_same, load_le-store_le}

module _ (width height : ℕ) (shm : Bytes) where
  abbrev with_width : Bytes
  with_width = store_le 4 8 (width % 2 ^ 32) shm

  abbrev with_size : Bytes
  with_size = store_le 4 12 (height % 2 ^ 32) with_width

  with_width_out : (a : ℕ) → (a < 8) ⊎ (12 ≤ a) → with_width a ≡ shm a
  with_width_out a h = store_le_out 4 8 (width % 2 ^ 32) shm a (omega arith)

  with_size_out : (a : ℕ) → (a < 12) ⊎ (16 ≤ a) → with_size a ≡ with_width a
  with_size_out a h = store_le_out 4 12 (height % 2 ^ 32) with_width a (omega arith)

  publish_out : (a : ℕ) → 8 ≤ a → publish width height shm a ≡ with_size a
  unfolding publish
  publish_out a h =
      store_le_out 8 0 ((load_le 8 0 with_size + 1) % 2 ^ 64) with_size a (inr (omega arith))

  with_size_index : load_le 8 0 with_size ≡ load_le 8 0 shm
  with_size_index =
      load_le_same 8 0 with_size shm
        λ a p q. with_size_out a (inl (omega arith)) ∙ with_width_out a (inl (omega arith))

  -- Publishing leaves the bytes behind the first sixteen alone.
  pub publish_others : (a : ℕ) → 16 ≤ a → publish width height shm a ≡ shm a
  publish_others a h =
      publish_out a (omega arith) ∙ with_size_out a (inr h) ∙ with_width_out a (inr (omega arith))

  pub publish_index : load_le 8 0 (publish width height shm) ≡ (load_le 8 0 shm + 1) % 2 ^ 64
  unfolding publish
  publish_index =
      load_le-store_le 8 0 ((load_le 8 0 with_size + 1) % 2 ^ 64) with_size (omega arith)
      ∙ ap (λ k. (k + 1) % 2 ^ 64) with_size_index

  pub publish_height : height < 2 ^ 32 → load_le 4 12 (publish width height shm) ≡ height
  publish_height h =
      load_le_same 4 12 (publish width height shm) with_size (λ a p q. publish_out a (omega arith))
      ∙ load_le-store_le 4 12 (height % 2 ^ 32) with_width (omega arith)
      ∙ omega arith

  pub publish_width : width < 2 ^ 32 → load_le 4 8 (publish width height shm) ≡ width
  publish_width h =
      load_le_same 4 8 (publish width height shm) with_width
        (λ a p q. publish_out a (omega arith) ∙ with_size_out a (inl (omega arith)))
      ∙ load_le-store_le 4 8 (width % 2 ^ 32) shm (omega arith)
      ∙ omega arith
