-- ===== src/Decoder/Tests.antt =====
-- Runs of a decoder over frameworks that hand out 1, 2, 3 and so on.
use rtmp_vcam.Prelude.{ℕ, ◌+◌, ◌≡◌, ◌≢◌, refl, [], ◌∷◌, ok, err, arith}
use rtmp_vcam.Decoder.{
  create_destination_attributes, created, released, boxed, used, H264Decoder, Frameworks, Machine,
  decode_failed, new, decode_avcc, drop_decoder,
}
use rtmp_vcam.Decoder.Sample.{counting, idle}
use rtmp_vcam.Decoder.Ledger.{gained, lost, drop_decoder-Gains}
use rtmp_vcam.Decoder.Never.{life-NeverOver}
use rtmp_vcam.Decoder.Over.{NeverOver}
use rtmp_vcam.Decoder.Life.{decode, flush_frames, life}

abbrev decoder : H264Decoder
decoder = record { session = 6; format_desc = 1; ctx = 5 }

new-counting : (new counting ((1 ∷ []) ∷ []) [] 4 9 idle).0 ≡ ok decoder
unfolding new rtmp_vcam.Decoder.with_format rtmp_vcam.Decoder.with_attributes
new-counting = refl

new-entries :
    (new counting ((1 ∷ []) ∷ []) [] 4 9 idle).1.entries
    ≡ created 6
      ∷ released 2
      ∷ used 2
      ∷ used 1
      ∷ boxed 5
      ∷ released 4
      ∷ used 4
      ∷ used 2
      ∷ created 4
      ∷ released 3
      ∷ used 3
      ∷ used 2
      ∷ created 3
      ∷ created 2
      ∷ created 1
      ∷ []
unfolding new rtmp_vcam.Decoder.with_format rtmp_vcam.Decoder.with_attributes
new-entries = refl

decode_avcc-fails : (decode_avcc counting decoder (1 ∷ []) 40 idle).0 ≡ err (decode_failed 7)
unfolding decode_avcc
decode_avcc-fails = refl

one_ne : ◌≢◌ {A = ℕ} 1 0
one_ne = λ e. omega (arith, e)

drop_decoder-Gains_example :
    gained 1 (drop_decoder counting decoder idle).1.entries + 0 + 1
    ≡ 0 + lost 1 (drop_decoder counting decoder idle).1.entries
drop_decoder-Gains_example = drop_decoder-Gains counting 1 one_ne decoder idle

life-NeverOver_example :
    NeverOver 1
      (life counting ((1 ∷ []) ∷ []) [] 4 9 (decode (1 ∷ []) 40 ∷ flush_frames ∷ []) idle).entries
life-NeverOver_example =
    life-NeverOver counting 1 one_ne ((1 ∷ []) ∷ []) [] 4 9 (decode (1 ∷ []) 40 ∷ flush_frames ∷ [])
      idle (omega arith) tt

-- Where no dictionary can be made, the null one is filled and released all the same.
abbrev starved : Frameworks
starved = record counting { dictionary_create = λ capacity n. (0, n) }

null_filled :
    (create_destination_attributes starved (record { state = 0; entries = [] })).1.entries
    ≡ released 0
      ∷ used 0
      ∷ used 0
      ∷ created 0
      ∷ released 1
      ∷ used 1
      ∷ used 0
      ∷ created 1
      ∷ created 0
      ∷ []
unfolding create_destination_attributes
null_filled = refl
