-- ===== src/Pipeline/Packets.antt =====
-- session.rs and flv.rs with main.rs's sink: a sequence header and a packet of video data reach the
-- sink's operations.
use Prim.Native.String.{String}
use rtmp_vcam.Prelude.{ℕ, ◌%◌, ◌^◌, ◌≡◌, refl, ap, Option, List, [], ◌∷◌, ok, AreBytes}
use rtmp_vcam.Flv.{AvcDecoderConfig}
use rtmp_vcam.Flv.Format.{IsHeader, IsNalu}
use rtmp_vcam.Flv.Exact.{IsHeader-iff, IsNalu-iff}
use rtmp_vcam.Session.{
  raised_event, video_data_received, Rtmp, Tcp, World, deliver, handle_event, handle_results,
}
use rtmp_vcam.Decoder.{Frameworks}
use rtmp_vcam.Sink.{on_decoder_config, on_video_data, decoder_sink}

module _ (os : Frameworks) (rtmp : Rtmp) (tcp : Tcp) (stream_key : Option String) where
  abbrev W : Type 0
  W = World rtmp tcp (decoder_sink os)

  header_event :
      (bytes : List ℕ) (t : ℕ) (config : AvcDecoderConfig) (w : W)
      → AreBytes bytes
      → IsHeader bytes config
      → handle_event rtmp tcp (decoder_sink os) stream_key (video_data_received bytes t) w
        ≡ (ok tt, record w { sink = on_decoder_config os config w.sink })
  unfolding handle_event deliver
  header_event bytes t config w are h =
      ap (λ p. deliver rtmp tcp (decoder_sink os) p w)
        ((IsHeader-iff bytes (t % 2 ^ 32) are config).1 h)

  nalu_event :
      (bytes : List ℕ) (t : ℕ) (payload : List ℕ) (w : W)
      → AreBytes bytes
      → IsNalu bytes payload
      → handle_event rtmp tcp (decoder_sink os) stream_key (video_data_received bytes t) w
        ≡ (ok tt, record w { sink = on_video_data os payload (t % 2 ^ 32) w.sink })
  unfolding handle_event deliver
  nalu_event bytes t payload w are h =
      ap (λ p. deliver rtmp tcp (decoder_sink os) p w)
        ((IsNalu-iff bytes (t % 2 ^ 32) are payload (t % 2 ^ 32)).1 (h, refl))

  -- A sequence header and a packet of video data, as results of a session: what the header's
  -- decoder decodes from the packet is the picture that the reader delivers.
  pub two_results :
      (header nalu : List ℕ) (t t' : ℕ) (config : AvcDecoderConfig) (payload : List ℕ) (w : W)
      → AreBytes header
      → AreBytes nalu
      → IsHeader header config
      → IsNalu nalu payload
      → (handle_results rtmp tcp
          (decoder_sink os)
          stream_key
          (raised_event (video_data_received header t)
            ∷ raised_event (video_data_received nalu t')
            ∷ [])
          w).1.sink
        ≡ on_video_data os payload (t' % 2 ^ 32) (on_decoder_config os config w.sink)
  unfolding handle_results
  two_results header nalu t t' config payload w are are' h h' =
      rw
        (
          header_event header t config w are h,
          nalu_event nalu t' payload (record w { sink = on_decoder_config os config w.sink }) are'
              h',
        )
        refl
