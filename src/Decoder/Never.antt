-- ===== src/Decoder/Never.antt =====
-- decoder.rs: at no moment does the decoder use or give back an object that it does not own.
use rtmp_vcam.Prelude.{
  ℕ, ◌+◌, ◌≤◌, ◌≡◌, ◌≢◌, List, [], ◌∷◌, ◌==◌, Bool-cases, inl, inr, sym, subst, Result, ok, err,
  arith,
}
use rtmp_vcam.Decoder.{
  released, freed, used, H264Decoder, Frameworks, Machine, DecodeError, new, flush,
  free_unless_null, release_unless_null, drop_decoder,
}
use rtmp_vcam.Io.{◌>>◌}
use rtmp_vcam.Decoder.Ledger.{hit, gained, lost, owned, made, new-Gains}
use rtmp_vcam.Decoder.Life.{
  Use, decode, flush_frames, use_decoder, use_all, finish, life, use_decoder-Gains, use_all-Gains,
}
use rtmp_vcam.Decoder.Over.{NeverOver, Holds, release-Never, decode_avcc-Never}
use rtmp_vcam.Decoder.Making.{new-Never}

module _ (os : Frameworks) (p : ℕ) (ne : p ≢ 0) where
  drop_rest-Never :
      (ctx format_desc : ℕ) (m : Machine os)
      → Holds os p (hit p format_desc + hit p ctx) m
      → NeverOver p ((free_unless_null os ctx >> release_unless_null os format_desc) m).1.entries
  drop_rest-Never ctx format_desc m (le, h) = elim (Bool-cases (ctx == 0)) [
    | inl e ↦ rw e (release-Never os p format_desc m (omega arith, h))
    | inr e ↦ rw e (
        release-Never os p format_desc (record m { entries = freed ctx ∷ m.entries })
          (omega arith, (omega arith, h)))
  ]

  pub drop_decoder-Never :
      (d : H264Decoder) (m : Machine os)
      → Holds os p (owned p d) m
      → NeverOver p (drop_decoder os d m).1.entries
  unfolding drop_decoder
  drop_decoder-Never d m (le, h) = elim (Bool-cases (d.session == 0)) [
    | inl e ↦ rw e (drop_rest-Never d.ctx d.format_desc m (omega arith, h))
    | inr e ↦ rw e (
        drop_rest-Never d.ctx d.format_desc
          (record {
            state = os.session_invalidate d.session m.state;
            entries = released d.session ∷ used d.ctx ∷ used d.session ∷ m.entries;
          })
          (omega arith, (omega arith, (omega arith, (omega arith, h)))))
  ]

  flush-entries :
      (d : H264Decoder) (m : Machine os)
      → (flush os d m).1.entries ≡ used d.ctx ∷ used d.session ∷ m.entries
  unfolding flush
  flush-entries d m = ground arith

  use_decoder-Never :
      (d : H264Decoder) (u : Use) (m : Machine os)
      → Holds os p (owned p d) m
      → NeverOver p (use_decoder os d u m).entries
  unfolding use_decoder
  use_decoder-Never d (decode avcc_data timestamp_ms) m h =
      decode_avcc-Never os p d avcc_data timestamp_ms m h
  use_decoder-Never d flush_frames m (le, h) =
      subst (NeverOver p) (sym (flush-entries d m)) (omega arith, (omega arith, h))

  use_all-Never :
      (d : H264Decoder) (uses : List Use) (m : Machine os)
      → Holds os p (owned p d) m
      → NeverOver p (use_all os d uses m).entries
  unfolding use_all
  use_all-Never d [] m (le, h) = h
  use_all-Never d (u ∷ uses) m (le, h) =
      use_all-Never d uses (use_decoder os d u m)
        (omega (arith, use_decoder-Gains os p ne d u m), use_decoder-Never d u m (le, h))

  finish-Never :
      (uses : List Use) (r : Result DecodeError H264Decoder) (m : Machine os)
      → Holds os p (made os p ne r) m
      → NeverOver p (finish os uses r m).entries
  finish-Never uses (ok d) m (le, h) =
      drop_decoder-Never d (use_all os d uses m)
        (omega (arith, use_all-Gains os p ne d uses m), use_all-Never d uses m (le, h))
  finish-Never uses (err e) m (le, h) = h

  -- Over its life a decoder neither uses nor gives back an object that it does not own at that
  -- moment: if the ledger holds no more losses than gains of it, now and at each earlier moment,
  -- and fewer at each use, then the same is so at each moment of the life, whatever the
  -- frameworks answer.
  pub life-NeverOver :
      (sps_list pps_list : List (List ℕ)) (nalu_length_size shm_ptr : ℕ) (uses : List Use)
      (m : Machine os)
      → lost p m.entries ≤ gained p m.entries
      → NeverOver p m.entries
      → NeverOver p (life os sps_list pps_list nalu_length_size shm_ptr uses m).entries
  unfolding life
  life-NeverOver sps_list pps_list nalu_length_size shm_ptr uses m le h =
      let (r, m') = new os sps_list pps_list nalu_length_size shm_ptr m in
      finish-Never uses r m' (
        omega (arith, new-Gains os p ne sps_list pps_list nalu_length_size shm_ptr m),
        new-Never os p sps_list pps_list nalu_length_size shm_ptr m (omega arith, h),
      )
