-- ===== src/Flv/Packets.antt =====
-- `parse_video_data` of flv.rs, case by case, against the layout of the tags.
use rtmp_vcam.Prelude.{
  ℕ, zero, suc, ◌≢◌, ltb-true, ◌%◌, ◌≤◌, ◌<◌, ◌≡◌, refl, sym, ap, ◌∙◌, inl, inr, Bool-cases, false,
  ltb, ◌==◌, ==_iff, bit_and, some, List, [], ◌∷◌, arith, length, AreBytes, bit_and_mask_4,
  leb-true, ltb-false, ltb-false_inv, ok, err,
}
use rtmp_vcam.Flv.{
  AvcDecoderConfig, VideoPacket, sequence_header, nalu_data, end_of_sequence, unsupported, reject,
  index, slice_from, parse_config, parse_sequence_header, parse_nalu_data, parse_avc, returned,
  parse_video_data,
}
use rtmp_vcam.Flv.Format.{IsHeader, IsNalu, IsEnd}
use rtmp_vcam.Flv.Config.{parse_config_cases}

-- What a tag that is parsed into a packet looks like.
pub data Sees (bytes : List ℕ) (timestamp : ℕ) : VideoPacket → Type 0 where
  sees_header : {c : AvcDecoderConfig} → IsHeader bytes c → Sees bytes timestamp (sequence_header c)
  sees_nalu :
      {payload : List ℕ} → IsNalu bytes payload → Sees bytes timestamp (nalu_data payload timestamp)
  sees_end : IsEnd bytes → Sees bytes timestamp end_of_sequence
  sees_none : Sees bytes timestamp unsupported

-- The parser's result as a packet, with what it says of the bytes.
pub record Parsed (bytes : List ℕ) (timestamp : ℕ) : Type 0 where
  pub packet : VideoPacket
  pub sees : Sees bytes timestamp packet
  pub result : parse_video_data bytes timestamp ≡ some packet

module _ (a b : ℕ) (r : List ℕ) (timestamp : ℕ) where
  abbrev tag : List ℕ
  tag = a ∷ b ∷ r

  -- A tag of codec 7 goes to the packet types.
  pub by_type :
      bit_and a 0x0F ≡ 7 → parse_video_data tag timestamp ≡ returned (parse_avc b tag timestamp)
  unfolding parse_video_data index
  by_type codec = rw (ltb-false (length tag) 2 (omega arith), codec) refl

  other_codec : (bit_and a 0x0F == 7) ≡ false → parse_video_data tag timestamp ≡ some unsupported
  unfolding parse_video_data index
  other_codec e = rw (ltb-false (length tag) 2 (omega arith), e) refl

pub header_result :
    (a t u v : ℕ) (body : List ℕ)
    → 6 ≤ length body
    → parse_sequence_header (a ∷ 0 ∷ t ∷ u ∷ v ∷ body) ≡ parse_config body
unfolding parse_sequence_header slice_from
header_result a t u v body h = ground arith

pub nalu_result :
    (a t u v : ℕ) (body : List ℕ) (timestamp : ℕ)
    → 0 < length body
    → parse_nalu_data (a ∷ 1 ∷ t ∷ u ∷ v ∷ body) timestamp ≡ ok (nalu_data body timestamp)
unfolding parse_nalu_data slice_from
nalu_result a t u v body timestamp h = ground arith

short_header : (bytes : List ℕ) → length bytes < 11 → parse_sequence_header bytes ≡ err reject
unfolding parse_sequence_header
short_header bytes h = rw (ltb-true (length bytes) 11 h) refl

short_nalu :
    (bytes : List ℕ) (timestamp : ℕ)
    → length bytes ≤ 5
    → parse_nalu_data bytes timestamp ≡ err reject
unfolding parse_nalu_data
short_nalu bytes timestamp h = rw (leb-true (length bytes) 5 h) refl

-- A tag of codec 7 with its packet type, by its length and its type.
module _ (a : ℕ) (timestamp : ℕ) (codec : a % 16 ≡ 7) (mask : bit_and a 0x0F ≡ 7) where
  of_exit :
      (b : ℕ) (r : List ℕ)
      → parse_avc b (a ∷ b ∷ r) timestamp ≡ err reject
      → Parsed (a ∷ b ∷ r) timestamp
  of_exit b r e = record {
    packet = unsupported;
    sees = sees_none;
    result = by_type a b r timestamp mask ∙ ap returned e ∙ unfold returned in refl;
  }

  header_cases : (r : List ℕ) → AreBytes r → Parsed (a ∷ 0 ∷ r) timestamp
  unfolding parse_avc returned
  header_cases (t ∷ u ∷ v ∷ body) bytes = elim (Bool-cases (ltb (length body) 6)) [
    | inl short ↦ of_exit 0 (t ∷ u ∷ v ∷ body) (short_header _ (ground arith))
    | inr long ↦ elim (parse_config_cases body (ltb-false_inv _ _ long) bytes.1.1.1) [
      | inl e ↦
          of_exit 0 (t ∷ u ∷ v ∷ body) (header_result a t u v body (ltb-false_inv _ _ long) ∙ e)
      | inr h ↦ record {
        packet = sequence_header h.found;
        sees = sees_header (record {
          tag = a;
          time_0 = t;
          time_1 = u;
          time_2 = v;
          body = body;
          shape = refl;
          codec = codec;
          describes = h.describes;
        });
        result =
            by_type a 0 (t ∷ u ∷ v ∷ body) timestamp mask
            ∙ ap returned (header_result a t u v body (ltb-false_inv _ _ long) ∙ h.result);
      }
    ]
  ]
  header_cases r bytes = of_exit 0 r (short_header _ (omega arith))

  nalu_cases : (r : List ℕ) → Parsed (a ∷ 1 ∷ r) timestamp
  unfolding parse_avc returned
  nalu_cases (t ∷ u ∷ v ∷ x ∷ body) = record {
    packet = nalu_data (x ∷ body) timestamp;
    sees = sees_nalu (record {
      tag = a;
      time_0 = t;
      time_1 = u;
      time_2 = v;
      shape = refl;
      codec = codec;
      filled = omega arith;
    });
    result =
        by_type a 1 (t ∷ u ∷ v ∷ x ∷ body) timestamp mask
        ∙ ap returned (nalu_result a t u v (x ∷ body) timestamp (omega arith));
  }
  nalu_cases r = of_exit 1 r (short_nalu _ timestamp (omega arith))

  end_case : (r : List ℕ) → Parsed (a ∷ 2 ∷ r) timestamp
  unfolding parse_avc returned
  end_case r = record {
    packet = end_of_sequence;
    sees = sees_end (record { tag = a; rest = r; shape = refl; codec = codec });
    result = by_type a 2 r timestamp mask;
  }

  other_case : (b : ℕ) (r : List ℕ) → b ≢ 0 → b ≢ 1 → b ≢ 2 → Parsed (a ∷ b ∷ r) timestamp
  unfolding parse_avc
  other_case b r p q s = of_exit b r (ground arith)

  type_cases : (b : ℕ) (r : List ℕ) → AreBytes r → Parsed (a ∷ b ∷ r) timestamp
  type_cases zero r bytes = header_cases r bytes
  type_cases (suc zero) r bytes = nalu_cases r
  type_cases (suc (suc zero)) r bytes = end_case r
  type_cases (suc (suc (suc b))) r bytes =
      other_case (suc (suc (suc b))) r (omega arith) (omega arith) (omega arith)

-- Every tag over bytes is parsed, and the packet says what the bytes are.
pub parse_cases : (bytes : List ℕ) (timestamp : ℕ) → AreBytes bytes → Parsed bytes timestamp
unfolding parse_video_data
parse_cases [] timestamp bytes = record { packet = unsupported; sees = sees_none; result = refl }
parse_cases (a ∷ []) timestamp bytes = record {
  packet = unsupported;
  sees = sees_none;
  result = refl;
}
parse_cases (a ∷ b ∷ r) timestamp bytes = elim (Bool-cases (bit_and a 0x0F == 7)) [
  | inl avc ↦
      let mask = (==_iff _ _).0 avc in
      type_cases a timestamp (sym (bit_and_mask_4 a bytes.0) ∙ mask) mask b r bytes.1.1
  | inr e ↦ record {
    packet = unsupported;
    sees = sees_none;
    result = other_codec a b r timestamp e;
  }
]
