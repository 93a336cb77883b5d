-- ===== src/Flv/Headers.antt =====
-- Sequence headers of flv.rs on a byte stream: bounds, round trip, longer and shorter input.
use rtmp_vcam.Prelude.{
  ℕ, ◌+◌, ◌≤◌, ◌<◌, ◌≡◌, refl, sym, ap, ◌∙◌, some, List, [], ◌∷◌, ◌++◌, arith, length, take, drop,
  take-append-drop, length-append, length-take, append_assoc, All, AreBytes, AreBytes-append,
  AreBytes-append_left, AreBytes-append_right, AreBytes-take, subst, AreBytes-drop, get_or,
}
use rtmp_vcam.Flv.{AvcDecoderConfig, VideoPacket, sequence_header, unsupported, parse_video_data}
use rtmp_vcam.Flv.Format.{encode_sets, encode_config, Describes, IsHeader}
use rtmp_vcam.Flv.Exact.{IsHeader-iff, parse-total, parse-Sees}
use rtmp_vcam.Flv.Packets.{Sees, sees_header, sees_nalu, sees_end, sees_none}

-- The record with bytes behind it is a record.
Describes-append :
    (bytes more : List ℕ) (c : AvcDecoderConfig) → Describes bytes c → Describes (bytes ++ more) c
Describes-append bytes more c d = record {
  profile = d.profile;
  compat = d.compat;
  level = d.level;
  size_byte = d.size_byte;
  sps_byte = d.sps_byte;
  rest = d.rest ++ more;
  shape =
      ap (λ r. r ++ more) d.shape
      ∙ ap (λ r. 1 ∷ d.profile ∷ d.compat ∷ d.level ∷ d.size_byte ∷ d.sps_byte ∷ r)
          (append_assoc (encode_sets c.sps) _ more
            ∙ ap (λ r. encode_sets c.sps ++ length c.pps ∷ r)
                (append_assoc (encode_sets c.pps) d.rest more));
  size = d.size;
  count = d.count;
}

IsHeader-append :
    (bytes more : List ℕ) (c : AvcDecoderConfig) → IsHeader bytes c → IsHeader (bytes ++ more) c
IsHeader-append bytes more c h = record {
  tag = h.tag;
  time_0 = h.time_0;
  time_1 = h.time_1;
  time_2 = h.time_2;
  body = h.body ++ more;
  shape = ap (λ r. r ++ more) h.shape;
  codec = h.codec;
  describes = Describes-append h.body more c h.describes;
}

-- Bytes behind a sequence header change nothing: what is parsed from a prefix is parsed from the
-- whole, whatever bytes follow and whatever the timestamps are.
pub header-append :
    (bytes more : List ℕ) (timestamp later : ℕ) (c : AvcDecoderConfig)
    → AreBytes bytes
    → AreBytes more
    → parse_video_data bytes timestamp ≡ some (sequence_header c)
    → parse_video_data (bytes ++ more) later ≡ some (sequence_header c)
header-append bytes more timestamp later c are are_more e =
    (IsHeader-iff (bytes ++ more) later (AreBytes-append bytes more are are_more) c).1
      (IsHeader-append bytes more c ((IsHeader-iff bytes timestamp are c).0 e))

-- The fewest bytes that a header with configuration `c` takes.
abbrev pub header_size : AvcDecoderConfig → ℕ
header_size c = 12 + length (encode_sets c.sps) + length (encode_sets c.pps)

header_size-le :
    (bytes : List ℕ) (c : AvcDecoderConfig) → IsHeader bytes c → header_size c ≤ length bytes
header_size-le bytes c h = omega (
  arith,
  ap length h.shape,
  ap length h.describes.shape,
  length-append (encode_sets c.sps) (length c.pps ∷ (encode_sets c.pps ++ h.describes.rest)),
  length-append (encode_sets c.pps) h.describes.rest,
)

module _ (bytes : List ℕ) (k timestamp later : ℕ) (c : AvcDecoderConfig) (are : AreBytes bytes)
    (parsed : parse_video_data bytes timestamp ≡ some (sequence_header c))
    (short : k < header_size c) where
  is_header : IsHeader bytes c
  is_header = (IsHeader-iff bytes timestamp are c).0 parsed

  -- The second byte of a prefix that is long enough.
  second_byte : (a b : ℕ) (r : List ℕ) → take k bytes ≡ a ∷ b ∷ r → b ≡ 0
  second_byte a b r e =
      ap (λ l. get_or l 1 0)
        (sym (ap (λ l. l ++ drop k bytes) e) ∙ take-append-drop k bytes ∙ is_header.shape)

  no_header : (c' : AvcDecoderConfig) → IsHeader (take k bytes) c' → ⊥
  no_header c' h = omega (arith, header_size-le (take k bytes) c' h, length-take k bytes, same_size)
    where
      whole : parse_video_data bytes later ≡ some (sequence_header c')
      whole =
          sym (ap (λ b. parse_video_data b later) (take-append-drop k bytes))
          ∙ header-append (take k bytes) (drop k bytes) later later c' (AreBytes-take k bytes are)
              (AreBytes-drop k bytes are)
              ((IsHeader-iff (take k bytes) later (AreBytes-take k bytes are) c').1 h)

      same : sequence_header c' ≡ sequence_header c
      same = cc (whole, (IsHeader-iff bytes later are c).1 is_header)

      same_config : c' ≡ c
      same_config = cc same

      same_size : header_size c' ≡ header_size c
      same_size = ap header_size same_config

  only_unsupported : (p : VideoPacket) → Sees (take k bytes) later p → p ≡ unsupported
  only_unsupported p (sees_header h) = absurd (no_header _ h)
  only_unsupported p (sees_nalu h) = absurd (omega (arith, second_byte _ 1 _ h.shape))
  only_unsupported p (sees_end h) = absurd (omega (arith, second_byte _ 2 _ h.shape))
  only_unsupported p sees_none = refl

  -- A sequence header that is cut off before its record ends is unsupported: no prefix of it is
  -- taken for a configuration, for video data or for the end of the sequence.
  pub header-take : parse_video_data (take k bytes) later ≡ some unsupported
  header-take =
      let (p, e) = parse-total (take k bytes) later (AreBytes-take k bytes are) in
      e
      ∙ ap some
          (only_unsupported p (parse-Sees (take k bytes) later (AreBytes-take k bytes are) p e))

-- Each set is one that the format can hold.
abbrev pub AreSets : List (List ℕ) → Type 0
AreSets = All (λ s. (length s < 65536) × AreBytes s)

-- What the format can hold.
pub record IsValid (c : AvcDecoderConfig) : Type 0 where
  pub sps_count : length c.sps ≤ 31
  pub pps_count : length c.pps ≤ 255
  pub size_min : 1 ≤ c.nalu_length_size
  pub size_max : c.nalu_length_size ≤ 4
  pub sps_sets : AreSets c.sps
  pub pps_sets : AreSets c.pps

AreSets-of_bytes :
    (ss : List (List ℕ)) (rest : List ℕ) → AreBytes (encode_sets ss ++ rest) → AreSets ss
AreSets-of_bytes [] rest are = tt
AreSets-of_bytes (s ∷ ss) rest are =
    let body : AreBytes (s ++ (encode_sets ss ++ rest)) =
      subst AreBytes (append_assoc s (encode_sets ss) rest) are.1.1 in
    (
      (omega (arith, are.0), AreBytes-append_left s _ body),
      AreSets-of_bytes ss rest (AreBytes-append_right s _ body),
    )

bytes_of_AreSets : (ss : List (List ℕ)) → AreSets ss → AreBytes (encode_sets ss)
bytes_of_AreSets [] h = tt
bytes_of_AreSets (s ∷ ss) h = (
  omega (arith, h.0.0),
  (omega arith, AreBytes-append s (encode_sets ss) h.0.1 (bytes_of_AreSets ss h.1)),
)

-- Every configuration that is parsed is within the bounds of the format: at most 31 SPS and 255 PPS,
-- each below 64 KiB, and a NAL length size from 1 to 4.
pub header-IsValid :
    (bytes : List ℕ) (timestamp : ℕ) (c : AvcDecoderConfig)
    → AreBytes bytes
    → parse_video_data bytes timestamp ≡ some (sequence_header c)
    → IsValid c
header-IsValid bytes timestamp c are e = record {
  sps_count = omega (arith, d.count);
  pps_count = omega (arith, tail.0);
  size_min = omega (arith, d.size);
  size_max = omega (arith, d.size);
  sps_sets = AreSets-of_bytes c.sps _ tables;
  pps_sets = AreSets-of_bytes c.pps d.rest tail.1;
}
  where
    h : IsHeader bytes c
    h = (IsHeader-iff bytes timestamp are c).0 e

    d : Describes h.body c
    d = h.describes

    tables : AreBytes (encode_sets c.sps ++ length c.pps ∷ (encode_sets c.pps ++ d.rest))
    tables = (subst AreBytes d.shape (subst AreBytes h.shape are).1.1.1.1.1).1.1.1.1.1.1

    tail : AreBytes (length c.pps ∷ (encode_sets c.pps ++ d.rest))
    tail = AreBytes-append_right (encode_sets c.sps) _ tables

-- A sequence header tag for `c`, as an encoder writes it.
abbrev pub encode_header : (profile compat level : ℕ) → AvcDecoderConfig → List ℕ
encode_header profile compat level c =
    0x17
    ∷ 0
    ∷ 0
    ∷ 0
    ∷ 0
    ∷ encode_config profile compat level (251 + c.nalu_length_size) (224 + length c.sps) c []

-- Every configuration within the bounds of the format is read back from the header that an encoder
-- writes for it.
pub header-encode_header :
    (profile compat level timestamp : ℕ) (c : AvcDecoderConfig)
    → AreBytes (profile ∷ compat ∷ level ∷ [])
    → IsValid c
    → parse_video_data (encode_header profile compat level c) timestamp ≡ some (sequence_header c)
header-encode_header profile compat level timestamp c small v =
    (IsHeader-iff (encode_header profile compat level c) timestamp are c).1 (record {
      tag = 0x17;
      time_0 = 0;
      time_1 = 0;
      time_2 = 0;
      body =
          encode_config profile compat level (251 + c.nalu_length_size) (224 + length c.sps) c [];
      shape = refl;
      codec = refl;
      describes = record {
        profile = profile;
        compat = compat;
        level = level;
        size_byte = 251 + c.nalu_length_size;
        sps_byte = 224 + length c.sps;
        rest = [];
        shape = refl;
        size = omega (arith, v.size_min, v.size_max);
        count = omega (arith, v.sps_count);
      };
    })
  where
    tables : AreBytes (encode_sets c.sps ++ length c.pps ∷ (encode_sets c.pps ++ []))
    tables = AreBytes-append (encode_sets c.sps) _ (bytes_of_AreSets c.sps v.sps_sets) (
      omega (arith, v.pps_count),
      AreBytes-append (encode_sets c.pps) [] (bytes_of_AreSets c.pps v.pps_sets) tt,
    )

    sizes : (251 + c.nalu_length_size < 256) × (224 + length c.sps < 256)
    sizes = omega (arith, v.size_max, v.sps_count)

    are : AreBytes (encode_header profile compat level c)
    are =
        AreBytes-append (0x17 ∷ 0 ∷ 0 ∷ 0 ∷ 0 ∷ 1 ∷ profile ∷ compat ∷ level ∷ [])
          ((251 + c.nalu_length_size)
            ∷ (224 + length c.sps)
            ∷ (encode_sets c.sps ++ length c.pps ∷ (encode_sets c.pps ++ [])))
          (omega (arith, small)) (sizes.0, (sizes.1, tables))
