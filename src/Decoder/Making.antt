-- ===== src/Decoder/Making.antt =====
-- decoder.rs: while a decoder is made, no object is used or given back that is not owned.
use rtmp_vcam.Prelude.{ℕ, ◌+◌, ◌++◌, map, length, List, ◌∷◌, ◌==◌, Bool-cases, inl, inr, arith}
use rtmp_vcam.Decoder.{
  created, released, boxed, freed, used, H264Decoder, Frameworks, Machine, session_failed,
  create_destination_attributes, with_status, with_attributes, with_format, new,
  release_unless_null,
}
use rtmp_vcam.Io.{◌>>◌, fail}
use rtmp_vcam.Decoder.Ledger.{hit}
use rtmp_vcam.Decoder.Over.{NeverOver, Holds}

module _ (os : Frameworks) (p : ℕ) where
  give_up-Never :
      (f status : ℕ) (m : Machine os)
      → Holds os p (hit p f) m
      → NeverOver p
          ((release_unless_null os f >> fail {A = H264Decoder} (session_failed status)) m).1.entries
  give_up-Never f status m (le, h) = elim (Bool-cases (f == 0)) [
    | inl e ↦ rw e h
    | inr e ↦ rw e (omega arith, h)
  ]

  with_status-Never :
      (f c : ℕ) (answer : ℕ × ℕ) (m : Machine os)
      → Holds os p (hit p f + hit p c) m
      → NeverOver p (with_status os f c answer m).1.entries
  unfolding with_status
  with_status-Never f c (status, session) m (le, h) = elim (Bool-cases (status == 0)) [
    | inl fine ↦ rw fine (omega arith, h)
    | inr e ↦ rw e (
        give_up-Never f status (record m { entries = freed c ∷ m.entries })
          (omega arith, (omega arith, h)))
  ]

  with_attributes-Never :
      (shm f a : ℕ) (m : Machine os)
      → Holds os p (hit p f + hit p a) m
      → NeverOver p (with_attributes os shm f a m).1.entries
  unfolding with_attributes
  with_attributes-Never shm f a m (le, h) = elim (Bool-cases (a == 0)) [
    | inl null ↦ rw null (
        with_status-Never f ctx answer
          (record { state = state; entries = used a ∷ used f ∷ boxed ctx ∷ m.entries })
          (omega arith, (omega arith, (omega arith, (omega arith, h)))))
    | inr e ↦ rw e (
        with_status-Never f ctx answer
          (record { state = state; entries = released a ∷ used a ∷ used f ∷ boxed ctx ∷ m.entries })
          (omega arith, (omega arith, (omega arith, (omega arith, (omega arith, h))))))
  ]
    where
      ctx : ℕ
      ctx = (os.box_new shm m.state).0

      answer : ℕ × ℕ
      answer = (os.session_create f a ctx (os.box_new shm m.state).1).0

      state : os.State
      state = (os.session_create f a ctx (os.box_new shm m.state).1).1

  attributes-Never :
      (m : Machine os) → Holds os p 0 m → NeverOver p (create_destination_attributes os m).1.entries
  unfolding create_destination_attributes
  attributes-Never m (le, h) = ground arith

  with_format-Never :
      (shm f : ℕ) (m : Machine os)
      → Holds os p (hit p f) m
      → NeverOver p (with_format os shm f m).1.entries
  unfolding with_format create_destination_attributes
  with_format-Never shm f m (le, h) =
      let (r, v) = create_destination_attributes os m in
      with_attributes-Never shm f (os.dictionary_create 4 m.state).0 v
        (omega arith, attributes-Never m (omega arith, h))

  pub new-Never :
      (sps_list pps_list : List (List ℕ)) (nalu_length_size shm_ptr : ℕ) (m : Machine os)
      → Holds os p 0 m
      → NeverOver p (new os sps_list pps_list nalu_length_size shm_ptr m).1.entries
  unfolding new
  new-Never sps_list pps_list nalu_length_size shm_ptr m (le, h) =
      elim (Bool-cases (answer.0 == 0)) [
        | inl fine ↦ rw fine (
            with_format-Never shm_ptr answer.1
              (record { state = state; entries = created answer.1 ∷ m.entries })
              (omega arith, (omega arith, h)))
        | inr e ↦ rw e h
      ]
    where
      call : (ℕ × ℕ) × os.State
      call =
          os.format_create (sps_list ++ pps_list)
            (map (λ s. length s) sps_list ++ map (λ s. length s) pps_list) nalu_length_size m.state

      answer : ℕ × ℕ
      answer = call.0

      state : os.State
      state = call.1
