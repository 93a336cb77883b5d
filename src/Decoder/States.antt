-- ===== src/Decoder/States.antt =====
-- decoder.rs: what every call of the frameworks keeps, the decoder keeps.
use rtmp_vcam.Prelude.{
  ℕ, ◌∷◌, ◌++◌, map, length, Bool-cases, inl, inr, ◌==◌, arith, ◌≡◌, ◌⊎◌, sym, subst, List,
}
use rtmp_vcam.Ffi.{CmSampleTimingInfo}
use rtmp_vcam.Decoder.{
  created, boxed, released, used, H264Decoder, Frameworks, Machine, create_destination_attributes,
  with_status, with_attributes, with_format, new, decode_sample, with_sample, filled, with_block,
  decode_avcc, drop_decoder, timing_of,
}

-- Each call but the decoding one keeps `Q`.
pub record IsKept (os : Frameworks) (Q : os.State → Type 0) : Type 0 where
  pub format_create :
      (sets : List (List ℕ)) (sizes : List ℕ) (n : ℕ) (t : os.State)
      → Q t
      → Q (os.format_create sets sizes n t).1
  pub dictionary_create : (n : ℕ) (t : os.State) → Q t → Q (os.dictionary_create n t).1
  pub number_create : (n : ℕ) (t : os.State) → Q t → Q (os.number_create n t).1
  pub set_pixel_format : (d v : ℕ) (t : os.State) → Q t → Q (os.set_pixel_format d v t)
  pub set_io_surface : (d v : ℕ) (t : os.State) → Q t → Q (os.set_io_surface d v t)
  pub box_new : (p : ℕ) (t : os.State) → Q t → Q (os.box_new p t).1
  pub session_create : (f a c : ℕ) (t : os.State) → Q t → Q (os.session_create f a c t).1
  pub session_invalidate : (s : ℕ) (t : os.State) → Q t → Q (os.session_invalidate s t)
  pub block_create : (n : ℕ) (t : os.State) → Q t → Q (os.block_create n t).1
  pub replace_bytes :
      (bytes : List ℕ) (b : ℕ) (t : os.State) → Q t → Q (os.replace_bytes bytes b t).1
  pub sample_create :
      (b f : ℕ) (c : CmSampleTimingInfo) (n : ℕ) (t : os.State)
      → Q t
      → Q (os.sample_create b f c n t).1

module _ (os : Frameworks) (Q : os.State → Type 0) (kept : IsKept os Q) where
  attributes-Kept : (m : Machine os) → Q m.state → Q (create_destination_attributes os m).1.state
  unfolding create_destination_attributes
  attributes-Kept m q = kept.set_io_surface _ _ _ (
      kept.dictionary_create _ _
        (kept.set_pixel_format _ _ _ (kept.number_create _ _ (kept.dictionary_create _ _ q))))

  with_status-state :
      (f c : ℕ) (answer : ℕ × ℕ) (m : Machine os) → (with_status os f c answer m).1.state ≡ m.state
  unfolding with_status
  with_status-state f c answer m = ground arith

  with_attributes-state :
      (shm f a : ℕ) (m : Machine os)
      → let (ctx, t) = os.box_new shm m.state in
        (with_attributes os shm f a m).1.state ≡ (os.session_create f a ctx t).1
  unfolding with_attributes
  with_attributes-state shm f a m = elim (Bool-cases (a == 0)) [
    | inl null ↦ rw null (
        with_status-state f ctx answer
          (record { state = state; entries = used a ∷ used f ∷ boxed ctx ∷ m.entries }))
    | inr e ↦ rw e (
        with_status-state f ctx answer (record {
          state = state;
          entries = released a ∷ used a ∷ used f ∷ boxed ctx ∷ m.entries;
        }))
  ]
    where
      ctx : ℕ
      ctx = (os.box_new shm m.state).0

      answer : ℕ × ℕ
      answer = (os.session_create f a ctx (os.box_new shm m.state).1).0

      state : os.State
      state = (os.session_create f a ctx (os.box_new shm m.state).1).1

  with_attributes-Kept :
      (shm f a : ℕ) (m : Machine os) → Q m.state → Q (with_attributes os shm f a m).1.state
  with_attributes-Kept shm f a m q =
      subst Q (sym (with_attributes-state shm f a m))
        (kept.session_create _ _ _ _ (kept.box_new _ _ q))

  with_format-Kept : (shm f : ℕ) (m : Machine os) → Q m.state → Q (with_format os shm f m).1.state
  unfolding with_format
  with_format-Kept shm f m q =
      let (r, v) = create_destination_attributes os m in
      with_attributes-Kept shm f (os.dictionary_create 4 m.state).0 v (attributes-Kept m q)

  pub new-Kept :
      (sps_list pps_list : List (List ℕ)) (nalu_length_size shm_ptr : ℕ) (m : Machine os)
      → Q m.state
      → Q (new os sps_list pps_list nalu_length_size shm_ptr m).1.state
  unfolding new
  new-Kept sps_list pps_list nalu_length_size shm_ptr m q = elim (Bool-cases (answer.0 == 0)) [
    | inl fine ↦ rw fine (
        with_format-Kept shm_ptr answer.1
          (record { state = state; entries = created answer.1 ∷ m.entries }) made)
    | inr e ↦ rw e made
  ]
    where
      sizes : List ℕ
      sizes = map (λ s. length s) sps_list ++ map (λ s. length s) pps_list

      answer : ℕ × ℕ
      answer = (os.format_create (sps_list ++ pps_list) sizes nalu_length_size m.state).0

      state : os.State
      state = (os.format_create (sps_list ++ pps_list) sizes nalu_length_size m.state).1

      made : Q state
      made = kept.format_create (sps_list ++ pps_list) sizes nalu_length_size m.state q

  drop_decoder-state :
      (d : H264Decoder) (m : Machine os)
      → ((drop_decoder os d m).1.state ≡ m.state)
        ⊎ ((drop_decoder os d m).1.state ≡ os.session_invalidate d.session m.state)
  unfolding drop_decoder
  drop_decoder-state d m = elim (Bool-cases (d.session == 0)) [
    | inl e ↦ inl (ground arith)
    | inr e ↦ inr (ground arith)
  ]

  pub drop_decoder-Kept :
      (d : H264Decoder) (m : Machine os) → Q m.state → Q (drop_decoder os d m).1.state
  drop_decoder-Kept d m q = elim (drop_decoder-state d m) [
    | inl e ↦ subst Q (sym e) q
    | inr e ↦ subst Q (sym e) (kept.session_invalidate _ _ q)
  ]

-- Decoding, where the decoding call keeps `Q` too.
module _ (os : Frameworks) (Q : os.State → Type 0) (kept : IsKept os Q)
    (decode_kept : (s b : ℕ) (t : os.State) → Q t → Q (os.decode_frame s b t).1) where
  decode_sample-state :
      (d : H264Decoder) (sample : ℕ) (m : Machine os)
      → (decode_sample os d sample m).1.state ≡ (os.decode_frame d.session sample m.state).1
  unfolding decode_sample
  decode_sample-state d sample m = ground arith

  with_sample-Kept :
      (d : H264Decoder) (block : ℕ) (answer : ℕ × ℕ) (m : Machine os)
      → Q m.state
      → Q (with_sample os d block answer m).1.state
  unfolding with_sample
  with_sample-Kept d block (status, sample) m q = elim (Bool-cases (status == 0)) [
    | inl fine ↦ rw fine (
        subst Q
          (sym (
            decode_sample-state d sample
              (record m { entries = released block ∷ created sample ∷ m.entries })))
          (decode_kept _ _ _ q))
    | inr e ↦ rw e q
  ]

  filled-Kept :
      (d : H264Decoder) (avcc_data : List ℕ) (timestamp_ms block status : ℕ) (m : Machine os)
      → Q m.state
      → Q (filled os d avcc_data timestamp_ms block status m).1.state
  unfolding filled
  filled-Kept d avcc_data timestamp_ms block status m q = elim (Bool-cases (status == 0)) [
    | inl fine ↦
        let (answer, t) =
          os.sample_create block d.format_desc (timing_of os timestamp_ms) (length avcc_data)
            m.state in
        rw fine (
          with_sample-Kept d block answer
            (record { state = t; entries = used d.format_desc ∷ used block ∷ m.entries })
            (kept.sample_create _ _ _ _ _ q))
    | inr e ↦ rw e q
  ]

  pub decode_avcc-Kept :
      (d : H264Decoder) (avcc_data : List ℕ) (timestamp_ms : ℕ) (m : Machine os)
      → Q m.state
      → Q (decode_avcc os d avcc_data timestamp_ms m).1.state
  unfolding decode_avcc with_block
  decode_avcc-Kept d avcc_data timestamp_ms m q = elim (Bool-cases (answer.0 == 0)) [
    | inl fine ↦
        let (status, t) = os.replace_bytes avcc_data answer.1 state in
        rw fine (
          filled-Kept d avcc_data timestamp_ms answer.1 status
            (record { state = t; entries = used answer.1 ∷ created answer.1 ∷ m.entries })
            (kept.replace_bytes _ _ _ (kept.block_create _ _ q)))
    | inr e ↦ rw e (kept.block_create _ _ q)
  ]
    where
      answer : ℕ × ℕ
      answer = (os.block_create (length avcc_data) m.state).0

      state : os.State
      state = (os.block_create (length avcc_data) m.state).1
