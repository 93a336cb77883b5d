-- ===== src/Flv/Config.antt =====
-- `parse_sequence_header` of flv.rs from the AVCDecoderConfigurationRecord on.
use rtmp_vcam.Prelude.{
  ℕ, suc, ◌+◌, ◌≤◌, ◌<◌, ◌≡◌, refl, sym, ap, ◌∙◌, ◌⊎◌, inl, inr, Bool-cases, leb, ◌==◌, ==_iff,
  bit_and, List, [], ◌∷◌, ◌++◌, arith, length, drop, drop-cons, drop-drop, ap₂, length-drop,
  AreBytes, bit_and_mask_2, bit_and_mask_5, subst, leb-false, leb-false_inv, ok, err,
}
use rtmp_vcam.Flv.{AvcDecoderConfig, sequence_header, reject, index, parse_tables, parse_config}
use rtmp_vcam.Flv.Format.{encode_sets, encode_config, Describes}
use rtmp_vcam.Flv.Access.{index_of_drop, index_in_range, index_inv}
use rtmp_vcam.Flv.Sets.{HasReadAll, read_sets_complete, read_sets_cases}

-- The tables of `c` at position 6 are read whole.
parse_tables_complete :
    (config rest : List ℕ) (c : AvcDecoderConfig)
    → drop 6 config ≡ encode_sets c.sps ++ length c.pps ∷ (encode_sets c.pps ++ rest)
    → parse_tables config (length c.sps) c.nalu_length_size ≡ ok (sequence_header c)
unfolding parse_tables
parse_tables_complete config rest c e =
    let (pos, sps_read, at_pps) = read_sets_complete c.sps config 6 [] _ e in
    let (end, pps_read, at_end) =
      read_sets_complete c.pps config (pos + 1) [] rest
        (sym (drop-drop 1 pos config) ∙ ap (drop 1) at_pps) in
    let room : pos < length config = omega (arith, length-drop pos config, ap length at_pps) in
    rw (sps_read, leb-false _ _ room, index_of_drop config pos _ _ at_pps, pps_read) refl

-- What reading the tables has found.
record HasTables (config : List ℕ) (n size : ℕ) : Type 0 where
  sps : List (List ℕ)
  pps : List (List ℕ)
  rest : List ℕ
  count : length sps ≡ n
  here : drop 6 config ≡ encode_sets sps ++ length pps ∷ (encode_sets pps ++ rest)
  result :
      parse_tables config n size
      ≡ ok (sequence_header (record { sps = sps; pps = pps; nalu_length_size = size }))

parse_tables_cases :
    (config : List ℕ) (n size : ℕ)
    → AreBytes config
    → (parse_tables config n size ≡ err reject) ⊎ HasTables config n size
unfolding parse_tables
parse_tables_cases config n size bytes = elim (read_sets_cases n config 6 [] bytes) [
  | inl e ↦ inl (rw e refl)
  | inr h ↦ elim (Bool-cases (leb (length config) h.end)) [
    | inl short ↦ inl (rw (h.result, short) refl)
    | inr room ↦ behind h (leb-false_inv _ _ room)
  ]
]
  where
    found :
        (h : HasReadAll config n 6 []) (num_pps : ℕ) (room : h.end < length config)
        → index config h.end ≡ ok num_pps
        → HasReadAll config num_pps (h.end + 1) []
        → HasTables config n size
    found h num_pps room e t = record {
      sps = h.read;
      pps = t.read;
      rest = drop t.end config;
      count = h.count;
      here =
          h.here
          ∙ ap (λ r. encode_sets h.read ++ r)
              (drop-cons config h.end num_pps (index_inv config h.end num_pps e)
                ∙ ap (λ k. num_pps ∷ drop k config) {x = suc h.end} {y = h.end + 1} (omega arith)
                ∙ cc (t.count, t.here));
      result = rw (h.result, leb-false _ _ room, e, t.result) refl;
    }

    behind :
        (h : HasReadAll config n 6 [])
        → h.end < length config
        → (parse_tables config n size ≡ err reject) ⊎ HasTables config n size
    behind h room =
        let (num_pps, e) = index_in_range config h.end room in
        elim (read_sets_cases num_pps config (h.end + 1) [] bytes) [
          | inl r ↦ inl (rw (h.result, leb-false _ _ room, e, r) refl)
          | inr t ↦ inr (found h num_pps room e t)
        ]

-- A record is parsed into the configuration that it describes.
pub parse_config_complete :
    (config : List ℕ) (c : AvcDecoderConfig)
    → AreBytes config
    → Describes config c
    → parse_config config ≡ ok (sequence_header c)
unfolding parse_config
parse_config_complete config c bytes d =
    rw
      (
        index_of_drop config 0 _ _ d.shape,
        index_of_drop config 1 _ _ (ap (drop 1) d.shape),
        index_of_drop config 3 _ _ (ap (drop 3) d.shape),
        index_of_drop config 4 _ _ (ap (drop 4) d.shape),
        index_of_drop config 5 _ _ (ap (drop 5) d.shape),
      )
      (ap₂ (parse_tables config) num_sps size
        ∙ parse_tables_complete config d.rest c (ap (drop 6) d.shape))
  where
    fixed : AreBytes (encode_config d.profile d.compat d.level d.size_byte d.sps_byte c d.rest)
    fixed = subst AreBytes d.shape bytes

    num_sps : bit_and d.sps_byte 0x1F ≡ length c.sps
    num_sps = bit_and_mask_5 d.sps_byte fixed.1.1.1.1.1.0 ∙ sym d.count

    size : bit_and d.size_byte 0x03 + 1 ≡ c.nalu_length_size
    size = ap (λ k. k + 1) (bit_and_mask_2 d.size_byte fixed.1.1.1.1.0) ∙ sym d.size

-- A record is refused, or parsed into a configuration that it describes; parsing never panics.
pub record HasConfig (config : List ℕ) : Type 0 where
  pub found : AvcDecoderConfig
  pub describes : Describes config found
  pub result : parse_config config ≡ ok (sequence_header found)

pub parse_config_cases :
    (config : List ℕ)
    → 6 ≤ length config
    → AreBytes config
    → (parse_config config ≡ err reject) ⊎ HasConfig config
unfolding parse_config index
parse_config_cases [] h bytes = absurd (omega arith)
parse_config_cases (v ∷ []) h bytes = absurd (omega arith)
parse_config_cases (v ∷ p ∷ []) h bytes = absurd (omega arith)
parse_config_cases (v ∷ p ∷ c ∷ []) h bytes = absurd (omega arith)
parse_config_cases (v ∷ p ∷ c ∷ l ∷ []) h bytes = absurd (omega arith)
parse_config_cases (v ∷ p ∷ c ∷ l ∷ z ∷ []) h bytes = absurd (omega arith)
parse_config_cases (v ∷ p ∷ c ∷ l ∷ z ∷ n ∷ r) h bytes = elim (Bool-cases (v == 1)) [
  | inl version ↦ elim (parse_tables_cases config (bit_and n 0x1F) (bit_and z 0x03 + 1) bytes) [
    | inl e ↦ inl (rw version e)
    | inr t ↦ inr (record {
      found = record { sps = t.sps; pps = t.pps; nalu_length_size = bit_and z 0x03 + 1 };
      describes = record {
        profile = p;
        compat = c;
        level = l;
        size_byte = z;
        sps_byte = n;
        rest = t.rest;
        shape = cc ((==_iff v 1).0 version, t.here);
        size = ap (λ k. k + 1) (bit_and_mask_2 z bytes.1.1.1.1.0);
        count = t.count ∙ bit_and_mask_5 n bytes.1.1.1.1.1.0;
      };
      result = rw version t.result;
    })
  ]
  | inr other ↦ inl (rw other refl)
]
  where
    config : List ℕ
    config = v ∷ p ∷ c ∷ l ∷ z ∷ n ∷ r
