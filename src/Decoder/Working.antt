-- ===== src/Decoder/Working.antt =====
-- decoder.rs over frameworks whose calls succeed: a decoder is made, and data reaches the decoding
-- call.
use rtmp_vcam.Prelude.{
  ℕ, ◌∷◌, ◌++◌, map, length, ◌==◌, ◌≡◌, arith, true, Bool-cases, inl, inr, List, Result, ok, err,
}
use rtmp_vcam.Ffi.{CmSampleTimingInfo}
use rtmp_vcam.Decoder.{
  created, boxed, released, used, H264Decoder, Frameworks, Machine, create_destination_attributes,
  with_status, with_attributes, with_format, new, decode_sample, with_sample, filled, with_block,
  decode_avcc, timing_of,
}
use rtmp_vcam.Decoder.States.{IsKept}

-- The calls that make objects succeed.
pub record IsWorking (os : Frameworks) : Type 0 where
  pub format_create :
      (sets : List (List ℕ)) (sizes : List ℕ) (n : ℕ) (t : os.State)
      → (os.format_create sets sizes n t).0.0 ≡ 0
  pub session_create : (f a c : ℕ) (t : os.State) → (os.session_create f a c t).0.0 ≡ 0
  pub block_create : (n : ℕ) (t : os.State) → (os.block_create n t).0.0 ≡ 0
  pub replace_bytes : (bytes : List ℕ) (b : ℕ) (t : os.State) → (os.replace_bytes bytes b t).0 ≡ 0
  pub sample_create :
      (b f : ℕ) (c : CmSampleTimingInfo) (n : ℕ) (t : os.State)
      → (os.sample_create b f c n t).0.0 ≡ 0

abbrev pub IsOk : {E A : Type 0} → Result E A → Type 0
IsOk (ok a) = Unit
IsOk (err e) = ⊥

is_zero : (n : ℕ) → n ≡ 0 → (n == 0) ≡ true
is_zero n e = ground arith

module _ (os : Frameworks) where
  -- The sample that is made of the data where each call succeeds, and the state behind its making.
  unfoldable pub sample_for : H264Decoder → List ℕ → ℕ → os.State → ℕ × os.State
  sample_for d avcc_data timestamp_ms t =
      let ((status, block), t') = os.block_create (length avcc_data) t in
      let (status', t'') = os.replace_bytes avcc_data block t' in
      let ((status'', sample), t3) =
        os.sample_create block d.format_desc (timing_of os timestamp_ms) (length avcc_data) t'' in
      (sample, t3)

module _ (os : Frameworks) (works : IsWorking os) where
  with_status-IsOk :
      (f c : ℕ) (answer : ℕ × ℕ) (m : Machine os)
      → answer.0 ≡ 0
      → IsOk (with_status os f c answer m).0
  unfolding with_status
  with_status-IsOk f c (status, session) m e = rw (is_zero status e) tt

  with_attributes-IsOk : (shm f a : ℕ) (m : Machine os) → IsOk (with_attributes os shm f a m).0
  unfolding with_attributes
  with_attributes-IsOk shm f a m = elim (Bool-cases (a == 0)) [
    | inl null ↦ rw null (
        with_status-IsOk f ctx answer
          (record { state = state; entries = used a ∷ used f ∷ boxed ctx ∷ m.entries }) made)
    | inr e ↦ rw e (
        with_status-IsOk f ctx answer
          (record { state = state; entries = released a ∷ used a ∷ used f ∷ boxed ctx ∷ m.entries })
          made)
  ]
    where
      ctx : ℕ
      ctx = (os.box_new shm m.state).0

      answer : ℕ × ℕ
      answer = (os.session_create f a ctx (os.box_new shm m.state).1).0

      state : os.State
      state = (os.session_create f a ctx (os.box_new shm m.state).1).1

      made : answer.0 ≡ 0
      made = works.session_create f a ctx (os.box_new shm m.state).1

  pub new-IsOk :
      (sps_list pps_list : List (List ℕ)) (nalu_length_size shm_ptr : ℕ) (m : Machine os)
      → IsOk (new os sps_list pps_list nalu_length_size shm_ptr m).0
  unfolding new with_format
  new-IsOk sps_list pps_list nalu_length_size shm_ptr m =
      let sizes : List ℕ = map (λ s. length s) sps_list ++ map (λ s. length s) pps_list in
      let ((status, f), t) =
        os.format_create (sps_list ++ pps_list) sizes nalu_length_size m.state in
      let (r, v) =
        create_destination_attributes os (record { state = t; entries = created f ∷ m.entries }) in
      rw
        (is_zero status (works.format_create (sps_list ++ pps_list) sizes nalu_length_size m.state))
        (with_attributes-IsOk shm_ptr f (os.dictionary_create 4 t).0 v)

  decode_sample-state :
      (d : H264Decoder) (sample : ℕ) (m : Machine os)
      → (decode_sample os d sample m).1.state ≡ (os.decode_frame d.session sample m.state).1
  unfolding decode_sample
  decode_sample-state d sample m = ground arith

  with_sample-Decoded :
      (d : H264Decoder) (block : ℕ) (answer : ℕ × ℕ) (m : Machine os)
      → answer.0 ≡ 0
      → (with_sample os d block answer m).1.state ≡ (os.decode_frame d.session answer.1 m.state).1
  unfolding with_sample
  with_sample-Decoded d block (status, sample) m e = rw (is_zero status e) (
      decode_sample-state d sample
        (record m { entries = released block ∷ created sample ∷ m.entries }))

  -- The decoding call gets the sample that is made of the data.
  pub decode_avcc-Decoded :
      (d : H264Decoder) (avcc_data : List ℕ) (timestamp_ms : ℕ) (m : Machine os)
      → let (sample, t) = sample_for os d avcc_data timestamp_ms m.state in
        (decode_avcc os d avcc_data timestamp_ms m).1.state ≡ (os.decode_frame d.session sample t).1
  unfolding decode_avcc with_block filled sample_for
  decode_avcc-Decoded d avcc_data timestamp_ms m =
      let ((status, block), t) = os.block_create (length avcc_data) m.state in
      let (status', t') = os.replace_bytes avcc_data block t in
      let (answer, t'') =
        os.sample_create block d.format_desc (timing_of os timestamp_ms) (length avcc_data) t' in
      rw
        (
          is_zero status (works.block_create (length avcc_data) m.state),
          is_zero status' (works.replace_bytes avcc_data block t),
        )
        (with_sample-Decoded d block answer
          (record {
            state = t'';
            entries = used d.format_desc ∷ used block ∷ used block ∷ created block ∷ m.entries;
          })
          (works.sample_create block d.format_desc (timing_of os timestamp_ms) (length avcc_data)
            t'))

  -- What the calls before it keep, holds when it is made.
  pub sample_for-Kept :
      (Q : os.State → Type 0) (kept : IsKept os Q) (d : H264Decoder) (avcc_data : List ℕ)
      (timestamp_ms : ℕ) (t : os.State)
      → Q t
      → Q (sample_for os d avcc_data timestamp_ms t).1
  unfolding sample_for
  sample_for-Kept Q kept d avcc_data timestamp_ms t q =
      kept.sample_create _ _ _ _ _ (kept.replace_bytes _ _ _ (kept.block_create _ _ q))
