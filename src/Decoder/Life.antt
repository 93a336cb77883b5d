-- ===== src/Decoder/Life.antt =====
-- The whole life of a decoder: `new`, any calls of `decode_avcc` and `flush`, whose errors the
-- caller only logs, and `drop`.
use rtmp_vcam.Prelude.{ℕ, ◌+◌, ◌≡◌, ◌≢◌, List, [], ◌∷◌, Result, ok, err, arith}
use rtmp_vcam.Decoder.{
  H264Decoder, Frameworks, Machine, DecodeError, new, decode_avcc, flush, drop_decoder,
}
use rtmp_vcam.Decoder.Ledger.{
  gained, lost, Gains, made, decode_avcc-Gains, drop_decoder-Gains, new-Gains,
}

pub data Use : Type 0 where
  decode : List ℕ → ℕ → Use
  flush_frames : Use

module _ (os : Frameworks) where
  unfoldable pub use_decoder : H264Decoder → Use → Machine os → Machine os
  use_decoder d (decode avcc_data timestamp_ms) m = (decode_avcc os d avcc_data timestamp_ms m).1
  use_decoder d flush_frames m = (flush os d m).1

  unfoldable pub use_all : H264Decoder → List Use → Machine os → Machine os
  use_all d [] m = m
  use_all d (u ∷ uses) m = use_all d uses (use_decoder d u m)

  abbrev pub finish : List Use → Result DecodeError H264Decoder → Machine os → Machine os
  finish uses (ok d) m = (drop_decoder os d (use_all d uses m)).1
  finish uses (err e) m = m

  unfoldable pub life : List (List ℕ) → List (List ℕ) → ℕ → ℕ → List Use → Machine os → Machine os
  life sps_list pps_list nalu_length_size shm_ptr uses m =
      let (r, m') = new os sps_list pps_list nalu_length_size shm_ptr m in finish uses r m'

module _ (os : Frameworks) (p : ℕ) (ne : p ≢ 0) where
  pub use_decoder-Gains :
      (d : H264Decoder) (u : Use) (m : Machine os)
      → Gains p m.entries (use_decoder os d u m).entries 0
  unfolding use_decoder flush
  use_decoder-Gains d (decode avcc_data timestamp_ms) m =
      decode_avcc-Gains os p ne d avcc_data timestamp_ms m
  use_decoder-Gains d flush_frames m = ground arith

  pub use_all-Gains :
      (d : H264Decoder) (uses : List Use) (m : Machine os)
      → Gains p m.entries (use_all os d uses m).entries 0
  unfolding use_all
  use_all-Gains d [] m = omega arith
  use_all-Gains d (u ∷ uses) m =
      omega (arith, use_decoder-Gains d u m, use_all-Gains d uses (use_decoder os d u m))

  finish-Gains :
      (uses : List Use) (r : Result DecodeError H264Decoder) (m : Machine os)
      → gained p (finish os uses r m).entries + lost p m.entries + made os p ne r
        ≡ gained p m.entries + lost p (finish os uses r m).entries
  finish-Gains uses (ok d) m =
      omega (arith, use_all-Gains d uses m, drop_decoder-Gains os p ne d (use_all os d uses m))
  finish-Gains uses (err e) m = omega arith

  -- Over its life a decoder gives back as often as it gains it each object that it gains.
  pub life-Gains :
      (sps_list pps_list : List (List ℕ)) (nalu_length_size shm_ptr : ℕ) (uses : List Use)
      (m : Machine os)
      → Gains p m.entries (life os sps_list pps_list nalu_length_size shm_ptr uses m).entries 0
  unfolding life
  life-Gains sps_list pps_list nalu_length_size shm_ptr uses m =
      let (r, m') = new os sps_list pps_list nalu_length_size shm_ptr m in
      omega (
        arith,
        new-Gains os p ne sps_list pps_list nalu_length_size shm_ptr m,
        finish-Gains uses r m',
      )
