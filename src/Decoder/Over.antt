-- ===== src/Decoder/Over.antt =====
-- decoder.rs: while it decodes, the decoder neither uses nor gives back what it does not own.
use rtmp_vcam.Prelude.{ℕ, ◌+◌, ◌≤◌, length, List, [], ◌∷◌, ◌==◌, Bool-cases, inl, inr, arith}
use rtmp_vcam.Decoder.{
  Entry, created, released, boxed, freed, used, H264Decoder, Frameworks, Machine, decode_sample,
  with_sample, filled, with_block, decode_avcc, release_unless_null,
}
use rtmp_vcam.Decoder.Ledger.{hit, gained, lost, owned}

-- A use needs the object to be owned then.
abbrev pub needs : ℕ → Entry → ℕ
needs p (used q) = hit p q
needs p (created q) = 0
needs p (boxed q) = 0
needs p (released q) = 0
needs p (freed q) = 0

-- At each moment `p` was given back no more often than gained, and less often where it was used.
abbrev pub NeverOver : ℕ → List Entry → Type 0
NeverOver p [] = Unit
NeverOver p (e ∷ entries) =
    (lost p (e ∷ entries) + needs p e ≤ gained p (e ∷ entries)) × NeverOver p entries

module _ (os : Frameworks) (p : ℕ) where
  -- The machine has `n` of `p` to give back, and was never over.
  abbrev pub Holds : ℕ → Machine os → Type 0
  Holds n m = (lost p m.entries + n ≤ gained p m.entries) × NeverOver p m.entries

  pub release-Never :
      (q : ℕ) (m : Machine os)
      → Holds (hit p q) m
      → NeverOver p (release_unless_null os q m).1.entries
  release-Never q m (le, h) = elim (Bool-cases (q == 0)) [
    | inl e ↦ rw e h
    | inr e ↦ rw e (omega arith, h)
  ]

  decode_sample-Never :
      (d : H264Decoder) (sample : ℕ) (m : Machine os)
      → Holds (owned p d + hit p sample) m
      → NeverOver p (decode_sample os d sample m).1.entries
  unfolding decode_sample
  decode_sample-Never d sample m (le, h) =
      elim (Bool-cases ((os.decode_frame d.session sample m.state).0 == 0)) [
        | inl e ↦ rw e (omega arith, (omega arith, (omega arith, (omega arith, h))))
        | inr e ↦ rw e (omega arith, (omega arith, (omega arith, (omega arith, h))))
      ]

  with_sample-Never :
      (d : H264Decoder) (block : ℕ) (answer : ℕ × ℕ) (m : Machine os)
      → Holds (owned p d + hit p block) m
      → NeverOver p (with_sample os d block answer m).1.entries
  unfolding with_sample
  with_sample-Never d block (status, sample) m (le, h) = elim (Bool-cases (status == 0)) [
    | inl e ↦ rw e (
        decode_sample-Never d sample
          (record m { entries = released block ∷ created sample ∷ m.entries })
          (omega arith, (omega arith, (omega arith, h))))
    | inr e ↦ rw e (omega arith, h)
  ]

  filled-Never :
      (d : H264Decoder) (avcc_data : List ℕ) (timestamp_ms block status : ℕ) (m : Machine os)
      → Holds (owned p d + hit p block) m
      → NeverOver p (filled os d avcc_data timestamp_ms block status m).1.entries
  unfolding filled
  filled-Never d avcc_data timestamp_ms block status m (le, h) = elim (Bool-cases (status == 0)) [
    | inl e ↦ rw e (
        with_sample-Never d block _
          (record { state = _; entries = used d.format_desc ∷ used block ∷ m.entries })
          (omega arith, (omega arith, (omega arith, h))))
    | inr e ↦ rw e (omega arith, h)
  ]

  pub decode_avcc-Never :
      (d : H264Decoder) (avcc_data : List ℕ) (timestamp_ms : ℕ) (m : Machine os)
      → Holds (owned p d) m
      → NeverOver p (decode_avcc os d avcc_data timestamp_ms m).1.entries
  unfolding decode_avcc with_block
  decode_avcc-Never d avcc_data timestamp_ms m (le, h) = elim (Bool-cases (answer.0 == 0)) [
    | inl e ↦
        let (status, t) = os.replace_bytes avcc_data answer.1 state in
        rw e (
          filled-Never d avcc_data timestamp_ms answer.1 status
            (record { state = t; entries = used answer.1 ∷ created answer.1 ∷ m.entries })
            (omega arith, (omega arith, (omega arith, h))))
    | inr e ↦ rw e h
  ]
    where
      answer : ℕ × ℕ
      answer = (os.block_create (length avcc_data) m.state).0

      state : os.State
      state = (os.block_create (length avcc_data) m.state).1
