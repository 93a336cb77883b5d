-- ===== src/Sink/Balance.antt =====
-- main.rs: the sink owns one decoder at most and leaves nothing behind.
use Prim.Native.String.{String}
use rtmp_vcam.Prelude.{ℕ, ◌+◌, ◌≡◌, ◌≢◌, Option, none, some, List, Result, ok, err, arith}
use rtmp_vcam.Flv.{AvcDecoderConfig}
use rtmp_vcam.Handshake.{Rml}
use rtmp_vcam.Session.{Rtmp, Tcp}
use rtmp_vcam.Server.{Read, handle_connection}
use rtmp_vcam.Server.Sinks.{handle_connection-Keeps}
use rtmp_vcam.Decoder.{H264Decoder, Frameworks, Machine, DecodeError, new}
use rtmp_vcam.Decoder.Ledger.{
  gained, lost, owned, made, decode_avcc-Gains, drop_decoder-Gains, new-Gains,
}
use rtmp_vcam.Sink.{
  DecoderSink, new_sink, drop_option, install, on_decoder_config, decode_with, on_video_data,
  drop_sink, decoder_sink,
}

abbrev pub owned_option : ℕ → Option H264Decoder → ℕ
owned_option p none = 0
owned_option p (some d) = owned p d

-- What was gained of `p` and not given back is what the decoder of the sink owns.
abbrev pub Balanced : (os : Frameworks) → ℕ → DecoderSink os → Type 0
Balanced os p s = gained p s.machine.entries ≡ lost p s.machine.entries + owned_option p s.decoder

module _ (os : Frameworks) (p : ℕ) (ne : p ≢ 0) where
  drop_option-Balanced :
      (d : Option H264Decoder) (m : Machine os)
      → gained p (drop_option os d m).entries + lost p m.entries + owned_option p d
        ≡ gained p m.entries + lost p (drop_option os d m).entries
  unfolding drop_option
  drop_option-Balanced none m = omega arith
  drop_option-Balanced (some d) m = drop_decoder-Gains os p ne d m

  install-Balanced :
      (r : Result DecodeError H264Decoder) (s : DecoderSink os)
      → gained p s.machine.entries
        ≡ lost p s.machine.entries + owned_option p s.decoder + made os p ne r
      → Balanced os p (install os r s)
  unfolding install
  install-Balanced (ok d) s e = omega (arith, drop_option-Balanced s.decoder s.machine)
  install-Balanced (err x) s e = omega arith

  pub config-Balanced :
      (config : AvcDecoderConfig) (s : DecoderSink os)
      → Balanced os p s
      → Balanced os p (on_decoder_config os config s)
  unfolding on_decoder_config
  config-Balanced config s h =
      let (r, m) = new os config.sps config.pps config.nalu_length_size s.shm_ptr s.machine in
      install-Balanced r (record s { machine = m })
        (omega (
          arith,
          new-Gains os p ne config.sps config.pps config.nalu_length_size s.shm_ptr s.machine,
        ))

  decode_with-Balanced :
      (d : Option H264Decoder) (avcc_data : List ℕ) (timestamp : ℕ) (m : Machine os)
      → gained p m.entries ≡ lost p m.entries + owned_option p d
      → gained p (decode_with os d avcc_data timestamp m).entries
        ≡ lost p (decode_with os d avcc_data timestamp m).entries + owned_option p d
  unfolding decode_with
  decode_with-Balanced none avcc_data timestamp m h = h
  decode_with-Balanced (some d) avcc_data timestamp m h =
      omega (arith, decode_avcc-Gains os p ne d avcc_data timestamp m)

  pub video-Balanced :
      (avcc_data : List ℕ) (timestamp : ℕ) (s : DecoderSink os)
      → Balanced os p s
      → Balanced os p (on_video_data os avcc_data timestamp s)
  unfolding on_video_data
  video-Balanced avcc_data timestamp s h =
      decode_with-Balanced s.decoder avcc_data timestamp s.machine h

  -- A connection that starts with a new sink over an even ledger, and drops the sink at its end,
  -- leaves an even ledger: each object was given back as often as it was gained, whatever the
  -- peer sends, the key, and whatever rml_rtmp, the sockets and the frameworks answer.
  pub connection-Balanced :
      (rml : Rml) (rtmp : Rtmp) (tcp : Tcp) (stream_key : Option String) (reads : List Read)
      (stream : tcp.TcpStream) (shm_ptr : ℕ) (m : Machine os)
      → gained p m.entries ≡ lost p m.entries
      → let outcome =
          handle_connection rml rtmp tcp
            (decoder_sink os)
            stream_key
            reads
            stream
            (new_sink os shm_ptr m) in
        gained p (drop_sink os outcome.sink).entries ≡ lost p (drop_sink os outcome.sink).entries
  unfolding new_sink drop_sink
  connection-Balanced rml rtmp tcp stream_key reads stream shm_ptr m even =
      let outcome =
        handle_connection rml rtmp tcp (decoder_sink os) stream_key reads stream
          (new_sink os shm_ptr m) in
      omega (
        arith,
        drop_option-Balanced outcome.sink.decoder outcome.sink.machine,
        handle_connection-Keeps rml rtmp tcp (decoder_sink os) stream_key (Balanced os p)
            config-Balanced video-Balanced reads stream (new_sink os shm_ptr m) (omega arith),
      )
