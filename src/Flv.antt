-- ===== src/Flv.antt =====
-- crates/rtmp-server/src/flv.rs: the body of an FLV video tag.
-- A `Bytes` or a `Vec<u8>` is a list of numbers. Indexing and slicing out of bounds is a panic of
-- the source, here the error `panic`; the early `return VideoPacket::Unsupported` is `reject`.
-- The positions are sums of lengths of slices in memory, so no `usize` addition of them wraps.
mod Access
mod Sets
mod Config
mod Packets
pub mod Exact
pub mod Headers
mod Tests
mod UnitTests
pub mod Format
use rtmp_vcam.Prelude.{
  ℕ, zero, suc, ◌+◌, ◌-◌, Option, none, some, List, [], ◌∷◌, ◌++◌, bit_and, ltb, leb, ◌==◌, not,
  if◌then◌else◌, length, get_elem?, take, drop, Result, ok, err, ◌>>=◌, from_be_bytes,
}

pub record AvcDecoderConfig : Type 0 where
  pub sps : List (List ℕ)
  pub pps : List (List ℕ)
  pub nalu_length_size : ℕ

pub data VideoPacket : Type 0 where
  sequence_header : AvcDecoderConfig → VideoPacket
  nalu_data : List ℕ → ℕ → VideoPacket
  end_of_sequence : VideoPacket
  unsupported : VideoPacket

-- How the parser leaves a step early.
pub data Exit : Type 0 where
  reject panic : Exit

abbrev pub Parse : Type 0 → Type 0
Parse A = Result Exit A

-- `xs[i]`
unfoldable pub index : List ℕ → ℕ → Parse ℕ
index xs i = elim (get_elem? xs i) [ none ↦ err panic | some x ↦ ok x ]

-- `xs[a..b]`
unfoldable pub slice : List ℕ → ℕ → ℕ → Parse (List ℕ)
slice xs a b =
    if ltb b a
    then err panic
    else if ltb (length xs) b
    then err panic
    else ok (take (b - a) (drop a xs))

-- `xs[a..]`
unfoldable pub slice_from : List ℕ → ℕ → Parse (List ℕ)
slice_from xs a = if ltb (length xs) a then err panic else ok (drop a xs)

-- One round of the loop over the SPS, and of the equal loop over the PPS: the sets read so far and
-- `pos` come in, and those after the round come out.
unfoldable pub read_set : List ℕ → ℕ → List (List ℕ) → Parse (List (List ℕ) × ℕ)
read_set config pos sets = if ltb (length config) (pos + 2) then err reject else do
  hi ← index config pos
  lo ← index config (pos + 1)
  let set_len = from_be_bytes hi lo
  let pos' = pos + 2
  if ltb (length config) (pos' + set_len)
      then err reject
      else do bytes ← slice config pos' (pos' + set_len); ok (sets ++ bytes ∷ [], pos' + set_len)

-- `for _ in 0..n`
unfoldable pub read_sets : ℕ → List ℕ → ℕ → List (List ℕ) → Parse (List (List ℕ) × ℕ)
read_sets zero config pos sets = ok (sets, pos)
read_sets (suc n) config pos sets = do
  (sets', pos') ← read_set config pos sets
  read_sets n config pos' sets'

-- The two tables behind the fixed part of the record, and the packet.
unfoldable pub parse_tables : List ℕ → ℕ → ℕ → Parse VideoPacket
parse_tables config num_sps nalu_length_size = do
  (sps, pos) ← read_sets num_sps config 6 []
  if leb (length config) pos then err reject else do
    num_pps ← index config pos
    (pps, pos') ← read_sets num_pps config (pos + 1) []
    ok (sequence_header (record { sps = sps; pps = pps; nalu_length_size = nalu_length_size }))

-- The record from its first byte on, `config` of the source.
unfoldable pub parse_config : List ℕ → Parse VideoPacket
parse_config config = do
  version ← index config 0
  if not (version == 1) then err reject else do
    profile ← index config 1
    level ← index config 3
    size_byte ← index config 4
    sps_byte ← index config 5
    parse_tables config (bit_and sps_byte 0x1F) (bit_and size_byte 0x03 + 1)

unfoldable pub parse_sequence_header : List ℕ → Parse VideoPacket
parse_sequence_header bytes =
    if ltb (length bytes) (5 + 6)
    then err reject
    else do config ← slice_from bytes 5; parse_config config

unfoldable pub parse_nalu_data : List ℕ → ℕ → Parse VideoPacket
parse_nalu_data bytes timestamp =
    if leb (length bytes) 5
    then err reject
    else do avcc_payload ← slice_from bytes 5; ok (nalu_data avcc_payload timestamp)

unfoldable pub parse_avc : ℕ → List ℕ → ℕ → Parse VideoPacket
parse_avc avc_packet_type bytes timestamp =
    if avc_packet_type == 0
    then parse_sequence_header bytes
    else if avc_packet_type == 1
    then parse_nalu_data bytes timestamp
    else if avc_packet_type == 2
    then ok end_of_sequence
    else err reject

unfoldable pub parse_tag : List ℕ → ℕ → Parse VideoPacket
parse_tag bytes timestamp = if ltb (length bytes) 2 then err reject else do
  first ← index bytes 0
  if not (bit_and first 0x0F == 7)
      then err reject
      else do avc_packet_type ← index bytes 1; parse_avc avc_packet_type bytes timestamp

-- `none` is a panic.
unfoldable pub returned : Parse VideoPacket → Option VideoPacket
returned (ok p) = some p
returned (err reject) = some unsupported
returned (err panic) = none

unfoldable pub parse_video_data : List ℕ → ℕ → Option VideoPacket
unfolding parse_tag returned
parse_video_data bytes timestamp = returned (parse_tag bytes timestamp)
