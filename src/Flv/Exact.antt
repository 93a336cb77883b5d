-- ===== src/Flv/Exact.antt =====
-- `parse_video_data` of flv.rs decides the layout of the tags: each packet comes from exactly the
-- tags that hold it.
use rtmp_vcam.Prelude.{
  ℕ, ◌≡◌, ◌↔◌, refl, ap, ◌∙◌, some, List, ◌∷◌, arith, length, AreBytes, bit_and_mask_4, subst,
}
use rtmp_vcam.Flv.{
  AvcDecoderConfig, VideoPacket, sequence_header, nalu_data, end_of_sequence, returned, parse_avc,
  parse_video_data,
}
use rtmp_vcam.Flv.Format.{IsHeader, IsNalu, IsEnd}
use rtmp_vcam.Flv.Config.{parse_config_complete}
use rtmp_vcam.Flv.Packets.{
  Sees, sees_header, sees_nalu, sees_end, sees_none, parse_cases, by_type, header_result,
  nalu_result,
}

module _ (bytes : List ℕ) (timestamp : ℕ) (are : AreBytes bytes) where
  -- Over bytes the parser never panics: it returns a packet.
  pub parse-total : (p : VideoPacket) × (parse_video_data bytes timestamp ≡ some p)
  parse-total = let d = parse_cases bytes timestamp are in (d.packet, d.result)

  -- What a returned packet says of the bytes.
  pub parse-Sees :
      (p : VideoPacket) → parse_video_data bytes timestamp ≡ some p → Sees bytes timestamp p
  parse-Sees p e =
      let d = parse_cases bytes timestamp are in
      let same : d.packet ≡ p = cc (d.result, e) in subst (Sees bytes timestamp) same d.sees

IsHeader-of_Sees :
    {bytes : List ℕ} {timestamp : ℕ} {p : VideoPacket} (c : AvcDecoderConfig)
    → Sees bytes timestamp p
    → p ≡ sequence_header c
    → IsHeader bytes c
IsHeader-of_Sees c (sees_header h) e = subst (IsHeader _) (cc) h
IsHeader-of_Sees c (sees_nalu h) e = cc
IsHeader-of_Sees c (sees_end h) e = cc
IsHeader-of_Sees c sees_none e = cc

IsNalu-of_Sees :
    {bytes : List ℕ} {timestamp : ℕ} {p : VideoPacket} (payload : List ℕ) (t : ℕ)
    → Sees bytes timestamp p
    → p ≡ nalu_data payload t
    → IsNalu bytes payload × (t ≡ timestamp)
IsNalu-of_Sees payload t (sees_header h) e = cc
IsNalu-of_Sees payload t (sees_nalu h) e = (subst (IsNalu _) (cc) h, cc)
IsNalu-of_Sees payload t (sees_end h) e = cc
IsNalu-of_Sees payload t sees_none e = cc

IsEnd-of_Sees :
    {bytes : List ℕ} {timestamp : ℕ} {p : VideoPacket}
    → Sees bytes timestamp p
    → p ≡ end_of_sequence
    → IsEnd bytes
IsEnd-of_Sees (sees_header h) e = cc
IsEnd-of_Sees (sees_nalu h) e = cc
IsEnd-of_Sees (sees_end h) e = h
IsEnd-of_Sees sees_none e = cc

header_complete :
    (bytes : List ℕ) (timestamp : ℕ) (c : AvcDecoderConfig)
    → AreBytes bytes
    → IsHeader bytes c
    → parse_video_data bytes timestamp ≡ some (sequence_header c)
unfolding parse_avc returned
header_complete bytes timestamp c are h =
    ap (λ b. parse_video_data b timestamp) h.shape
    ∙ by_type h.tag 0 (h.time_0 ∷ h.time_1 ∷ h.time_2 ∷ h.body) timestamp
        (bit_and_mask_4 h.tag whole.0 ∙ h.codec)
    ∙ ap returned (
        header_result h.tag h.time_0 h.time_1 h.time_2 h.body
          (omega (arith, ap length h.describes.shape))
        ∙ parse_config_complete h.body c whole.1.1.1.1.1 h.describes)
  where
    whole : AreBytes (h.tag ∷ 0 ∷ h.time_0 ∷ h.time_1 ∷ h.time_2 ∷ h.body)
    whole = subst AreBytes h.shape are

nalu_complete :
    (bytes : List ℕ) (timestamp : ℕ) (payload : List ℕ)
    → AreBytes bytes
    → IsNalu bytes payload
    → parse_video_data bytes timestamp ≡ some (nalu_data payload timestamp)
unfolding parse_avc returned
nalu_complete bytes timestamp payload are h =
    ap (λ b. parse_video_data b timestamp) h.shape
    ∙ by_type h.tag 1 (h.time_0 ∷ h.time_1 ∷ h.time_2 ∷ payload) timestamp
        (bit_and_mask_4 h.tag (subst AreBytes h.shape are).0 ∙ h.codec)
    ∙ ap returned (nalu_result h.tag h.time_0 h.time_1 h.time_2 payload timestamp h.filled)

end_complete :
    (bytes : List ℕ) (timestamp : ℕ)
    → AreBytes bytes
    → IsEnd bytes
    → parse_video_data bytes timestamp ≡ some end_of_sequence
unfolding parse_avc returned
end_complete bytes timestamp are h =
    ap (λ b. parse_video_data b timestamp) h.shape
    ∙ by_type h.tag 2 h.rest timestamp
        (bit_and_mask_4 h.tag (subst AreBytes h.shape are).0 ∙ h.codec)

module _ (bytes : List ℕ) (timestamp : ℕ) (are : AreBytes bytes) where
  -- Over bytes, the parser returns a sequence header with configuration `c` exactly when the bytes
  -- are an AVC sequence header tag whose record describes `c`: version 1, as many SPS as the low
  -- five bits say, as many PPS as their count byte says, each set behind its 16-bit length, and a
  -- NAL length size of one more than the low two bits. Bytes behind the record are allowed.
  pub IsHeader-iff :
      (c : AvcDecoderConfig)
      → (parse_video_data bytes timestamp ≡ some (sequence_header c)) ↔ IsHeader bytes c
  IsHeader-iff c = (
    λ e. IsHeader-of_Sees c (parse-Sees bytes timestamp are _ e) refl,
    header_complete bytes timestamp c are,
  )

  -- Over bytes, the parser returns video data exactly for the tags of codec 7 and packet type 1
  -- with something behind the five header bytes; the payload is all of it and the timestamp is the
  -- caller's.
  pub IsNalu-iff :
      (payload : List ℕ) (t : ℕ)
      → (parse_video_data bytes timestamp ≡ some (nalu_data payload t))
        ↔ (IsNalu bytes payload × (t ≡ timestamp))
  IsNalu-iff payload t = (
    λ e. IsNalu-of_Sees payload t (parse-Sees bytes timestamp are _ e) refl,
    λ h. nalu_complete bytes timestamp payload are h.0 ∙ rw h.1 refl,
  )

  -- Over bytes, the parser returns the end of the sequence exactly for the tags of codec 7 and
  -- packet type 2.
  pub IsEnd-iff : (parse_video_data bytes timestamp ≡ some end_of_sequence) ↔ IsEnd bytes
  IsEnd-iff = (
    λ e. IsEnd-of_Sees (parse-Sees bytes timestamp are _ e) refl,
    end_complete bytes timestamp are,
  )
