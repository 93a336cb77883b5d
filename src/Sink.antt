-- ===== src/Sink.antt =====
-- crates/rtmp-vcam-app/src/main.rs: DecoderSink, the VideoSink of the application.
-- The state of the frameworks and the ledger of the decoder go with the sink. Errors of the
-- decoder are logged and otherwise dropped.
mod Balance
mod Owned
mod Tests
use rtmp_vcam.Prelude.{ℕ, Option, none, some, List, Result, ok, err}
use rtmp_vcam.Flv.{AvcDecoderConfig}
use rtmp_vcam.Session.{VideoSink}
use rtmp_vcam.Decoder.{
  H264Decoder, Frameworks, Machine, DecodeError, new, decode_avcc, drop_decoder,
}

pub record DecoderSink (os : Frameworks) : Type 0 where
  pub decoder : Option H264Decoder
  pub shm_ptr : ℕ
  pub machine : Machine os

module _ (os : Frameworks) where
  abbrev pub S : Type 0
  S = DecoderSink os

  -- `DecoderSink::new`, over frameworks in some state.
  unfoldable pub new_sink : ℕ → Machine os → S
  new_sink shm_ptr m = record { decoder = none; shm_ptr = shm_ptr; machine = m }

  -- What goes out of scope with a field of type `Option<H264Decoder>`.
  unfoldable pub drop_option : Option H264Decoder → Machine os → Machine os
  drop_option none m = m
  drop_option (some d) m = (drop_decoder os d m).1

  -- A new decoder takes the place of the old one, which is dropped; after an error the old one
  -- stays.
  unfoldable pub install : Result DecodeError H264Decoder → S → S
  install (ok d) s = record s { decoder = some d; machine = drop_option s.decoder s.machine }
  install (err e) s = s

  unfoldable pub on_decoder_config : AvcDecoderConfig → S → S
  on_decoder_config config s =
      let (r, m) = new os config.sps config.pps config.nalu_length_size s.shm_ptr s.machine in
      install r (record s { machine = m })

  unfoldable pub decode_with : Option H264Decoder → List ℕ → ℕ → Machine os → Machine os
  decode_with none avcc_data timestamp m = m
  decode_with (some d) avcc_data timestamp m = (decode_avcc os d avcc_data timestamp m).1

  unfoldable pub on_video_data : List ℕ → ℕ → S → S
  on_video_data avcc_data timestamp s = record s {
    machine = decode_with s.decoder avcc_data timestamp s.machine;
  }

  -- The sink goes out of scope with the task of its connection.
  unfoldable pub drop_sink : S → Machine os
  drop_sink s = drop_option s.decoder s.machine

  abbrev pub decoder_sink : VideoSink
  decoder_sink = record {
    Sink = S;
    on_decoder_config = on_decoder_config;
    on_video_data = on_video_data;
  }
