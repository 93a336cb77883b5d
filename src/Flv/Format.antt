-- ===== src/Flv/Format.antt =====
-- The layout of an AVC sequence header as the standard gives it, independent of the parser.
use rtmp_vcam.Prelude.{ℕ, ◌+◌, ◌/◌, ◌%◌, ◌<◌, ◌≡◌, List, [], ◌∷◌, ◌++◌, length}
use rtmp_vcam.Flv.{AvcDecoderConfig}

-- A parameter set behind its 16-bit length.
abbrev pub encode_set : List ℕ → List ℕ
encode_set s = length s / 256 ∷ length s % 256 ∷ s

abbrev pub encode_sets : List (List ℕ) → List ℕ
encode_sets [] = []
encode_sets (s ∷ ss) = encode_set s ++ encode_sets ss

-- The AVCDecoderConfigurationRecord from its first byte on, with `rest` behind it.
abbrev pub encode_config :
    (profile compat level size_byte sps_byte : ℕ) → AvcDecoderConfig → List ℕ → List ℕ
encode_config profile compat level size_byte sps_byte config rest =
    1
    ∷ profile
    ∷ compat
    ∷ level
    ∷ size_byte
    ∷ sps_byte
    ∷ (encode_sets config.sps ++ length config.pps ∷ (encode_sets config.pps ++ rest))

-- `bytes` is a record for `config`, whatever its reserved bits are and whatever follows it.
pub record Describes (bytes : List ℕ) (config : AvcDecoderConfig) : Type 0 where
  pub profile : ℕ
  pub compat : ℕ
  pub level : ℕ
  pub size_byte : ℕ
  pub sps_byte : ℕ
  pub rest : List ℕ
  pub shape : bytes ≡ encode_config profile compat level size_byte sps_byte config rest
  pub size : config.nalu_length_size ≡ size_byte % 4 + 1
  pub count : length config.sps ≡ sps_byte % 32

-- `bytes` is a video tag with codec 7 and packet type 0 whose body is a record for `config`.
pub record IsHeader (bytes : List ℕ) (config : AvcDecoderConfig) : Type 0 where
  pub tag : ℕ
  pub time_0 : ℕ
  pub time_1 : ℕ
  pub time_2 : ℕ
  pub body : List ℕ
  pub shape : bytes ≡ tag ∷ 0 ∷ time_0 ∷ time_1 ∷ time_2 ∷ body
  pub codec : tag % 16 ≡ 7
  pub describes : Describes body config

-- `bytes` is a video tag with codec 7 and packet type 1 whose body is `payload`, which is not empty.
pub record IsNalu (bytes payload : List ℕ) : Type 0 where
  pub tag : ℕ
  pub time_0 : ℕ
  pub time_1 : ℕ
  pub time_2 : ℕ
  pub shape : bytes ≡ tag ∷ 1 ∷ time_0 ∷ time_1 ∷ time_2 ∷ payload
  pub codec : tag % 16 ≡ 7
  pub filled : 0 < length payload

-- `bytes` is a video tag with codec 7 and packet type 2, whatever follows.
pub record IsEnd (bytes : List ℕ) : Type 0 where
  pub tag : ℕ
  pub rest : List ℕ
  pub shape : bytes ≡ tag ∷ 2 ∷ rest
  pub codec : tag % 16 ≡ 7
