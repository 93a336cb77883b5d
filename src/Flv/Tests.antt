-- ===== src/Flv/Tests.antt =====
-- The tests of flv.rs, and the theorems on its sequence headers at those inputs.
use rtmp_vcam.Prelude.{ℕ, ◌≡◌, ◌↔◌, refl, some, List, [], ◌∷◌, ◌++◌, arith, take, AreBytes}
use rtmp_vcam.Flv.{
  AvcDecoderConfig, VideoPacket, sequence_header, nalu_data, end_of_sequence, unsupported, index,
  slice, slice_from, read_set, read_sets, parse_tables, parse_config, parse_sequence_header,
  parse_nalu_data, parse_avc, parse_video_data,
}
use rtmp_vcam.Flv.Format.{IsHeader, IsNalu}
use rtmp_vcam.Flv.Exact.{parse-total, IsHeader-iff, IsNalu-iff}
use rtmp_vcam.Flv.Headers.{
  header-take, IsValid, header-IsValid, encode_header, header-encode_header,
}

abbrev sps_0 : List ℕ
sps_0 = 0x67 ∷ 0x64 ∷ 0x00 ∷ 0x1F ∷ []

abbrev pps_0 : List ℕ
pps_0 = 0x68 ∷ 0xEB ∷ 0xE3 ∷ []

abbrev minimal : List ℕ
minimal =
    0x17
    ∷ 0x00
    ∷ 0x00
    ∷ 0x00
    ∷ 0x00
    ∷ 0x01
    ∷ 0x64
    ∷ 0x00
    ∷ 0x1F
    ∷ 0xFF
    ∷ 0xE1
    ∷ 0x00
    ∷ 0x04
    ∷ (sps_0 ++ 0x01 ∷ 0x00 ∷ 0x03 ∷ pps_0)

abbrev minimal_config : AvcDecoderConfig
minimal_config = record { sps = sps_0 ∷ []; pps = pps_0 ∷ []; nalu_length_size = 4 }

abbrev frame : List ℕ
frame = 0x27 ∷ 0x01 ∷ 0x00 ∷ 0x00 ∷ 0x00 ∷ 0x00 ∷ 0x00 ∷ 0x00 ∷ 0x01 ∷ 0x65 ∷ []

parse_non_avc : parse_video_data (0x22 ∷ 0x00 ∷ []) 0 ≡ some unsupported
unfolding parse_video_data index
parse_non_avc = refl

parse_end : parse_video_data (0x17 ∷ 0x02 ∷ []) 0 ≡ some end_of_sequence
unfolding parse_video_data index parse_avc
parse_end = refl

parse_minimal : parse_video_data minimal 0 ≡ some (sequence_header minimal_config)
unfolding parse_video_data index slice slice_from parse_avc parse_sequence_header parse_config
    parse_tables read_sets read_set
parse_minimal = refl

parse_frame : parse_video_data frame 100 ≡ some (nalu_data (0 ∷ 0 ∷ 0 ∷ 1 ∷ 0x65 ∷ []) 100)
unfolding parse_video_data index slice_from parse_avc parse_nalu_data
parse_frame = refl

minimal_bytes : AreBytes minimal
minimal_bytes = omega arith

minimal-IsValid : IsValid minimal_config
minimal-IsValid = record {
  sps_count = omega arith;
  pps_count = omega arith;
  size_min = omega arith;
  size_max = omega arith;
  sps_sets = omega arith;
  pps_sets = omega arith;
}

parse-total_example : (p : VideoPacket) × (parse_video_data minimal 0 ≡ some p)
parse-total_example = parse-total minimal 0 minimal_bytes

IsHeader-iff_example :
    (parse_video_data minimal 0 ≡ some (sequence_header minimal_config))
    ↔ IsHeader minimal minimal_config
IsHeader-iff_example = IsHeader-iff minimal 0 minimal_bytes minimal_config

IsNalu-iff_example :
    (parse_video_data frame 100 ≡ some (nalu_data (0 ∷ 0 ∷ 0 ∷ 1 ∷ 0x65 ∷ []) 100))
    ↔ (IsNalu frame (0 ∷ 0 ∷ 0 ∷ 1 ∷ 0x65 ∷ []) × (◌≡◌ {A = ℕ} 100 100))
IsNalu-iff_example = IsNalu-iff frame 100 (omega arith) (0 ∷ 0 ∷ 0 ∷ 1 ∷ 0x65 ∷ []) 100

header-take_example : parse_video_data (take 15 minimal) 0 ≡ some unsupported
header-take_example =
    header-take minimal 15 0 0 minimal_config minimal_bytes parse_minimal (omega arith)

header-IsValid_example : IsValid minimal_config
header-IsValid_example = header-IsValid minimal 0 minimal_config minimal_bytes parse_minimal

header-encode_header_example :
    parse_video_data (encode_header 0x64 0 0x1F minimal_config) 0
    ≡ some (sequence_header minimal_config)
header-encode_header_example =
    header-encode_header 0x64 0 0x1F 0 minimal_config (omega arith) minimal-IsValid
