-- ===== src/Flv/UnitTests.antt =====
-- crates/rtmp-server/src/flv.rs: its unit tests. A test is whether its assertions hold; a panic
-- fails it.
use rtmp_vcam.Prelude.{
  ℕ, ◌≡◌, refl, Bool, true, false, ◌&&◌, ◌==◌, Option, none, some, List, [], ◌∷◌, ◌++◌, length,
  get_elem?,
}
use rtmp_vcam.Flv.{
  VideoPacket, sequence_header, nalu_data, end_of_sequence, unsupported, parse_video_data, index,
  parse_avc, parse_sequence_header, parse_config, parse_tables, read_sets, read_set, slice,
  slice_from, parse_nalu_data,
}

-- `assert_eq!` on byte strings, and on an element of a vector of them.
unfoldable bytes_eq : List ℕ → List ℕ → Bool
bytes_eq [] [] = true
bytes_eq (x ∷ xs) (y ∷ ys) = x == y && bytes_eq xs ys
bytes_eq xs ys = false

unfoldable is_some_bytes : Option (List ℕ) → List ℕ → Bool
unfolding bytes_eq
is_some_bytes none ys = false
is_some_bytes (some xs) ys = bytes_eq xs ys

-- `matches!`
unfoldable is_unsupported : Option VideoPacket → Bool
is_unsupported (some unsupported) = true
is_unsupported (some (sequence_header config)) = false
is_unsupported (some (nalu_data payload t)) = false
is_unsupported (some end_of_sequence) = false
is_unsupported none = false

unfoldable is_end : Option VideoPacket → Bool
is_end (some end_of_sequence) = true
is_end (some (sequence_header config)) = false
is_end (some (nalu_data payload t)) = false
is_end (some unsupported) = false
is_end none = false

unfoldable test_parse_non_avc : Bool
unfolding is_unsupported
test_parse_non_avc = is_unsupported (parse_video_data (0x22 ∷ 0x00 ∷ []) 0)

unfoldable test_parse_end_of_sequence : Bool
unfolding is_end
test_parse_end_of_sequence = is_end (parse_video_data (0x17 ∷ 0x02 ∷ []) 0)

abbrev header_bytes : List ℕ
header_bytes =
    (0x17 ∷ 0x00 ∷ 0x00 ∷ 0x00 ∷ 0x00 ∷ 0x01 ∷ 0x64 ∷ 0x00 ∷ 0x1F ∷ 0xFF ∷ 0xE1 ∷ [])
    ++ ((0x00 ∷ 0x04 ∷ [])
        ++ ((0x67 ∷ 0x64 ∷ 0x00 ∷ 0x1F ∷ [])
            ++ ((0x01 ∷ []) ++ ((0x00 ∷ 0x03 ∷ []) ++ (0x68 ∷ 0xEB ∷ 0xE3 ∷ [])))))

unfoldable expects_header : Option VideoPacket → Bool
unfolding is_some_bytes
expects_header (some (sequence_header config)) =
    length config.sps == 1
    && (length config.pps == 1
        && (config.nalu_length_size == 4
            && (is_some_bytes (get_elem? config.sps 0) (0x67 ∷ 0x64 ∷ 0x00 ∷ 0x1F ∷ [])
                && is_some_bytes (get_elem? config.pps 0) (0x68 ∷ 0xEB ∷ 0xE3 ∷ []))))
expects_header (some (nalu_data payload t)) = false
expects_header (some end_of_sequence) = false
expects_header (some unsupported) = false
expects_header none = false

unfoldable test_parse_sequence_header : Bool
unfolding expects_header
test_parse_sequence_header = expects_header (parse_video_data header_bytes 0)

abbrev nalu_bytes : List ℕ
nalu_bytes =
    (0x27 ∷ 0x01 ∷ 0x00 ∷ 0x00 ∷ 0x00 ∷ [])
    ++ ((0x00 ∷ 0x00 ∷ 0x00 ∷ 0x05 ∷ [])
        ++ ((0x65 ∷ 0x88 ∷ 0x80 ∷ 0x40 ∷ 0x00 ∷ [])
            ++ ((0x00 ∷ 0x00 ∷ 0x00 ∷ 0x03 ∷ []) ++ (0x06 ∷ 0x05 ∷ 0x00 ∷ []))))

unfoldable expects_nalu : Option VideoPacket → Bool
unfolding bytes_eq
expects_nalu (some (nalu_data payload t)) =
    t == 100
    && bytes_eq payload (
        0x00 ∷ 0x00 ∷ 0x00 ∷ 0x05 ∷ 0x65 ∷ 0x88 ∷ 0x80 ∷ 0x40 ∷ 0x00 ∷ 0x00 ∷ 0x00 ∷ 0x00 ∷ 0x03
        ∷ 0x06 ∷ 0x05 ∷ 0x00 ∷ [])
expects_nalu (some (sequence_header config)) = false
expects_nalu (some end_of_sequence) = false
expects_nalu (some unsupported) = false
expects_nalu none = false

unfoldable test_parse_nalu_data : Bool
unfolding expects_nalu
test_parse_nalu_data = expects_nalu (parse_video_data nalu_bytes 100)

non_avc_passes : test_parse_non_avc ≡ true
unfolding test_parse_non_avc parse_video_data index
non_avc_passes = refl

end_of_sequence_passes : test_parse_end_of_sequence ≡ true
unfolding test_parse_end_of_sequence parse_video_data index parse_avc
end_of_sequence_passes = refl

sequence_header_passes : test_parse_sequence_header ≡ true
unfolding test_parse_sequence_header parse_video_data index parse_avc parse_sequence_header
    parse_config parse_tables read_sets read_set slice slice_from
sequence_header_passes = refl

nalu_data_passes : test_parse_nalu_data ≡ true
unfolding test_parse_nalu_data parse_video_data index parse_avc parse_nalu_data slice_from
nalu_data_passes = refl
