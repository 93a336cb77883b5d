-- ===== src/Decoder/Ledger.antt =====
-- decoder.rs: what a decoder owns, by its entries, and that each of its operations accounts for it.
use rtmp_vcam.Prelude.{
  ◌++◌, map, length, ℕ, ◌+◌, ◌≡◌, ◌≢◌, List, [], ◌∷◌, ◌==◌, Bool-cases, inl, inr, if◌then◌else◌,
  Result, ok, err, arith,
}
use rtmp_vcam.Decoder.{
  Entry, created, released, boxed, freed, used, H264Decoder, Frameworks, Machine, DecodeError,
  create_destination_attributes, with_status, with_attributes, with_format, new, decode_avcc,
  drop_decoder,
}

abbrev pub hit : ℕ → ℕ → ℕ
hit p q = if p == q then 1 else 0

-- How often `p` was gained, and given back.
abbrev pub gained : ℕ → List Entry → ℕ
gained p [] = 0
gained p (created q ∷ entries) = hit p q + gained p entries
gained p (boxed q ∷ entries) = hit p q + gained p entries
gained p (released q ∷ entries) = gained p entries
gained p (freed q ∷ entries) = gained p entries
gained p (used q ∷ entries) = gained p entries

abbrev pub lost : ℕ → List Entry → ℕ
lost p [] = 0
lost p (created q ∷ entries) = lost p entries
lost p (boxed q ∷ entries) = lost p entries
lost p (released q ∷ entries) = hit p q + lost p entries
lost p (freed q ∷ entries) = hit p q + lost p entries
lost p (used q ∷ entries) = lost p entries

-- What a decoder owns of `p`: its session, its format description and its context.
abbrev pub owned : ℕ → H264Decoder → ℕ
owned p d = hit p d.session + hit p d.format_desc + hit p d.ctx

-- From the first entries to the second, what was gained and not given back is `more` of `p`.
abbrev pub Gains : ℕ → List Entry → List Entry → ℕ → Type 0
Gains p before after more = gained p after + lost p before ≡ gained p before + lost p after + more

module _ (os : Frameworks) (p : ℕ) (ne : p ≢ 0) where
  -- Decoding gives back the block and the sample buffer that it makes, on every path.
  pub decode_avcc-Gains :
      (d : H264Decoder) (avcc_data : List ℕ) (timestamp_ms : ℕ) (m : Machine os)
      → Gains p m.entries (decode_avcc os d avcc_data timestamp_ms m).1.entries 0
  unfolding decode_avcc
  decode_avcc-Gains d avcc_data timestamp_ms m = ground arith

  -- Dropping a decoder gives back all that it owns.
  pub drop_decoder-Gains :
      (d : H264Decoder) (m : Machine os)
      → gained p (drop_decoder os d m).1.entries + lost p m.entries + owned p d
        ≡ gained p m.entries + lost p (drop_decoder os d m).1.entries
  unfolding drop_decoder
  drop_decoder-Gains d m = ground arith

  -- What making a decoder gains: on success what the decoder owns, on a failure nothing.
  abbrev pub made : Result DecodeError H264Decoder → ℕ
  made (ok d) = owned p d
  made (err e) = 0

  with_status-Gains :
      (f c : ℕ) (answer : ℕ × ℕ) (m : Machine os)
      → gained p (with_status os f c answer m).1.entries + lost p m.entries + hit p f + hit p c
        ≡ gained p m.entries
          + lost p (with_status os f c answer m).1.entries
          + made (with_status os f c answer m).0
  unfolding with_status
  with_status-Gains f c (status, session) m = elim (Bool-cases (status == 0)) [
    | inl fine ↦ rw fine (omega arith)
    | inr e ↦ rw e (ground arith)
  ]

  with_attributes-Gains :
      (shm f a : ℕ) (m : Machine os)
      → gained p (with_attributes os shm f a m).1.entries + lost p m.entries + hit p f + hit p a
        ≡ gained p m.entries
          + lost p (with_attributes os shm f a m).1.entries
          + made (with_attributes os shm f a m).0
  unfolding with_attributes
  with_attributes-Gains shm f a m = elim (Bool-cases (a == 0)) [
    | inl null ↦ rw null (
        ground (
          arith,
          with_status-Gains f ctx answer
              (record { state = state; entries = used a ∷ used f ∷ boxed ctx ∷ m.entries }),
        ))
    | inr e ↦ rw e (
        ground (
          arith,
          with_status-Gains f ctx answer (record {
            state = state;
            entries = released a ∷ used a ∷ used f ∷ boxed ctx ∷ m.entries;
          }),
        ))
  ]
    where
      ctx : ℕ
      ctx = (os.box_new shm m.state).0

      answer : ℕ × ℕ
      answer = (os.session_create f a ctx (os.box_new shm m.state).1).0

      state : os.State
      state = (os.session_create f a ctx (os.box_new shm m.state).1).1

  with_format-Gains :
      (shm f : ℕ) (m : Machine os)
      → gained p (with_format os shm f m).1.entries + lost p m.entries + hit p f
        ≡ gained p m.entries
          + lost p (with_format os shm f m).1.entries
          + made (with_format os shm f m).0
  unfolding with_format
  with_format-Gains shm f m =
      let (r, v) = create_destination_attributes os m in
      omega (arith, with_attributes-Gains shm f (os.dictionary_create 4 m.state).0 v)

  -- Making a decoder gains what the decoder owns, and on each failure nothing.
  pub new-Gains :
      (sps_list pps_list : List (List ℕ)) (nalu_length_size shm_ptr : ℕ) (m : Machine os)
      → let (r, m') = new os sps_list pps_list nalu_length_size shm_ptr m in
        Gains p m.entries m'.entries (made r)
  unfolding new
  new-Gains sps_list pps_list nalu_length_size shm_ptr m = elim (Bool-cases (answer.0 == 0)) [
    | inl fine ↦ rw fine (
        ground (
          arith,
          with_format-Gains shm_ptr answer.1
              (record { state = state; entries = created answer.1 ∷ m.entries }),
        ))
    | inr e ↦ rw e (omega arith)
  ]
    where
      call : (ℕ × ℕ) × os.State
      call =
          os.format_create (sps_list ++ pps_list)
            (map (λ s. length s) sps_list ++ map (λ s. length s) pps_list) nalu_length_size m.state

      answer : ℕ × ℕ
      answer = call.0

      state : os.State
      state = call.1
