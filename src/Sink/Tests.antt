-- ===== src/Sink/Tests.antt =====
-- A connection whose sink makes a decoder, over the stand-ins of the session and frameworks that
-- hand out 1, 2, 3 and so on.
use rtmp_vcam.Prelude.{◌≡◌, refl, none, some, List, [], ◌∷◌, arith}
use rtmp_vcam.Server.{Read, handle_connection}
use rtmp_vcam.Session.Sample.{rml, rtmp, tcp}
use rtmp_vcam.Decoder.{H264Decoder}
use rtmp_vcam.Decoder.Sample.{counting, idle}
use rtmp_vcam.Decoder.Ledger.{gained, lost}
use rtmp_vcam.Sink.{new_sink, on_decoder_config, drop_sink, decoder_sink}
use rtmp_vcam.Sink.Balance.{connection-Balanced}
use rtmp_vcam.Sink.Owned.{connection-NeverOver}
use rtmp_vcam.Decoder.Over.{NeverOver}

-- Two configurations: the decoder of the first, whose session is 6, is replaced.
replaced :
    (on_decoder_config counting
      (record { sps = []; pps = []; nalu_length_size = 4 })
      (on_decoder_config counting
        (record { sps = []; pps = []; nalu_length_size = 4 })
        (new_sink counting 9 idle))).decoder
    ≡ some (record { session = 12; format_desc = 7; ctx = 11 })
unfolding on_decoder_config rtmp_vcam.Sink.install rtmp_vcam.Decoder.new
    rtmp_vcam.Decoder.with_format rtmp_vcam.Decoder.with_attributes new_sink
    rtmp_vcam.Sink.drop_option
replaced = refl

-- The third read is a sequence header, the fourth a frame.
abbrev reads : List Read
reads =
    some (9 ∷ [])
    ∷ some (1 ∷ [])
    ∷ some (
        5 ∷ 0x17 ∷ 0 ∷ 0 ∷ 0 ∷ 0 ∷ 1 ∷ 66 ∷ 0 ∷ 30 ∷ 0xFF ∷ 0xE1 ∷ 0 ∷ 1 ∷ 0x67 ∷ 1 ∷ 0 ∷ 1 ∷ 0x68
        ∷ [])
    ∷ some (5 ∷ 0x27 ∷ 1 ∷ 0 ∷ 0 ∷ 0 ∷ 7 ∷ [])
    ∷ some []
    ∷ []

connection-Balanced_example :
    let outcome =
      handle_connection rml rtmp tcp
        (decoder_sink counting)
        none
        reads
        []
        (new_sink counting 9 idle) in
    gained 6 (drop_sink counting outcome.sink).entries
    ≡ lost 6 (drop_sink counting outcome.sink).entries
connection-Balanced_example =
    connection-Balanced counting 6 (λ e. omega (arith, e)) rml rtmp tcp none reads [] 9 idle refl

connection-NeverOver_example :
    let outcome =
      handle_connection rml rtmp tcp
        (decoder_sink counting)
        none
        reads
        []
        (new_sink counting 9 idle) in
    NeverOver 6 (drop_sink counting outcome.sink).entries
connection-NeverOver_example =
    connection-NeverOver counting 6 (λ e. omega (arith, e)) rml rtmp tcp none reads [] 9 idle refl
      tt
