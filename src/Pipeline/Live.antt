-- ===== src/Pipeline/Live.antt =====
-- From video packets to a picture in the camera extension: session.rs, flv.rs, main.rs, decoder.rs
-- and Stream.swift together, where the frameworks' calls succeed.
use Prim.Native.String.{String}
use rtmp_vcam.Prelude.{
  ℕ, ◌+◌, ◌%◌, ◌^◌, ◌<◌, ◌≡◌, refl, ap, ◌∙◌, sym, subst, Option, none, some, List, [], ◌∷◌, Result,
  ok, err, AreBytes,
}
use rtmp_vcam.Flv.{AvcDecoderConfig}
use rtmp_vcam.Flv.Format.{IsHeader, IsNalu}
use rtmp_vcam.Session.{raised_event, video_data_received, Rtmp, Tcp, World, handle_results}
use rtmp_vcam.Frame
use rtmp_vcam.Frame.{PixelBuffer, decompression_callback}
use rtmp_vcam.Frame.Callback.{IsNv12, write_index}
use rtmp_vcam.Decoder.{H264Decoder, Frameworks, Machine, DecodeError, new}
use rtmp_vcam.Decoder.States.{IsKept, new-Kept, drop_decoder-Kept}
use rtmp_vcam.Decoder.Working.{
  IsWorking, IsOk, new-IsOk, sample_for, sample_for-Kept, decode_avcc-Decoded,
}
use rtmp_vcam.Sink.{
  DecoderSink, drop_option, install, on_decoder_config, decode_with, on_video_data, decoder_sink,
}
use rtmp_vcam.Reader.{Picture, read_latest_frame}
use rtmp_vcam.Reader.Frames.{callback-Delivers}
use rtmp_vcam.Reader.Shows.{IsShown, IsPicture, Delivers}
use rtmp_vcam.Pipeline.Packets.{two_results}
use rtmp_vcam.Pipeline.{VideoToolbox, Shm, run_callbacks, with_callback}

-- VideoToolbox makes what it is asked for and decodes each sample to one image, which it passes to
-- the callback as CoreVideo documents it, with a lock that succeeds; and the extension's CoreVideo
-- makes buffers of any size that is shown.
pub record IsDisplaying (vt : VideoToolbox) (create : ℕ → ℕ → Option Picture) : Type 0 where
  pub works : IsWorking vt.calls
  pub image_of : ℕ → ℕ → vt.calls.State → PixelBuffer
  pub decodes :
      (session sample : ℕ) (t : vt.calls.State)
      → vt.outputs session sample t ≡ (0, some (image_of session sample t)) ∷ []
  pub shown : (session sample : ℕ) (t : vt.calls.State) → IsShown (image_of session sample t)
  pub nv12 : (session sample : ℕ) (t : vt.calls.State) → IsNv12 (image_of session sample t)
  pub lock : (session sample : ℕ) (t : vt.calls.State) → (image_of session sample t).lock_status ≡ 0
  pub new_picture : ℕ → ℕ → Picture
  pub creates : (w h : ℕ) → create w h ≡ some (new_picture w h)
  pub pictures : (w h : ℕ) → IsPicture w h (new_picture w h)

module _ (vt : VideoToolbox) (create : ℕ → ℕ → Option Picture) (good : IsDisplaying vt create) where
  abbrev os : Frameworks
  os = with_callback vt

  -- A sink with a decoder, over a mapping in state `s`.
  pub record IsReady (s : Frame.State) (k : DecoderSink os) : Type 0 where
    pub decoder : H264Decoder
    pub has : k.decoder ≡ some decoder
    pub mapping : k.machine.state.1 ≡ ok s

  -- The image that the sample made of the data decodes to.
  unfoldable pub image_for : H264Decoder → List ℕ → ℕ → os.State → PixelBuffer
  image_for d payload timestamp t =
      let (sample, t') = sample_for os d payload timestamp t in good.image_of d.session sample t'.0

  -- Behind a call with video data, from the first sink to the second, the reader delivers the image
  -- that the data decodes to.
  pub record IsDisplayed (payload : List ℕ) (timestamp : ℕ) (k k' : DecoderSink os) : Type 0 where
    pub decoder : H264Decoder
    pub has : k.decoder ≡ some decoder
    pub after : Frame.State
    pub mapping : k'.machine.state.1 ≡ ok after
    pub picture : Picture
    pub read : read_latest_frame create after.shm ≡ ok (some picture)
    pub delivers : Delivers (image_for decoder payload timestamp k.machine.state) picture

  os-IsWorking : IsWorking os
  os-IsWorking = record {
    format_create = λ sets sizes n t. good.works.format_create sets sizes n t.0;
    session_create = λ f a c t. good.works.session_create f a c t.0;
    block_create = λ n t. good.works.block_create n t.0;
    replace_bytes = λ bytes b t. good.works.replace_bytes bytes b t.0;
    sample_create = λ b f c n t. good.works.sample_create b f c n t.0;
  }

  setup-Kept : (s : Frame.State) → IsKept os (λ t. t.1 ≡ ok s)
  setup-Kept s = record {
    format_create = λ sets sizes n t q. q;
    dictionary_create = λ n t q. q;
    number_create = λ n t q. q;
    set_pixel_format = λ d v t q. q;
    set_io_surface = λ d v t q. q;
    box_new = λ p t q. q;
    session_create = λ f a c t q. q;
    session_invalidate = λ d t q. q;
    block_create = λ n t q. q;
    replace_bytes = λ bytes b t q. q;
    sample_create = λ b f timing n t q. q;
  }

  drop_option-mapping :
      (d : Option H264Decoder) (m : Machine os) (s : Frame.State)
      → m.state.1 ≡ ok s
      → (drop_option os d m).state.1 ≡ ok s
  unfolding drop_option
  drop_option-mapping none m s q = q
  drop_option-mapping (some d) m s q = drop_decoder-Kept os (λ t. t.1 ≡ ok s) (setup-Kept s) d m q

  install-IsReady :
      (r : Result DecodeError H264Decoder) (k : DecoderSink os) (s : Frame.State)
      → IsOk r
      → k.machine.state.1 ≡ ok s
      → IsReady s (install os r k)
  unfolding install
  install-IsReady (ok d) k s i q = record {
    decoder = d;
    has = refl;
    mapping = drop_option-mapping k.decoder k.machine s q;
  }
  install-IsReady (err e) k s i q = absurd i

  pub config-IsReady :
      (config : AvcDecoderConfig) (k : DecoderSink os) (s : Frame.State)
      → k.machine.state.1 ≡ ok s
      → IsReady s (on_decoder_config os config k)
  unfolding on_decoder_config
  config-IsReady config k s q =
      let (r, m) = new os config.sps config.pps config.nalu_length_size k.shm_ptr k.machine in
      install-IsReady r (record k { machine = m }) s
        (new-IsOk os os-IsWorking config.sps config.pps config.nalu_length_size k.shm_ptr k.machine)
        (new-Kept os (λ t. t.1 ≡ ok s) (setup-Kept s) config.sps config.pps config.nalu_length_size
          k.shm_ptr k.machine q)

  -- The callbacks of one decoding call.
  one_callback :
      (session sample : ℕ) (t : vt.calls.State) (shm : Shm) (s : Frame.State)
      → shm ≡ ok s
      → run_callbacks (vt.outputs session sample t) shm
        ≡ decompression_callback 0 (some (good.image_of session sample t)) s
  unfolding run_callbacks
  one_callback session sample t shm s e = rw (good.decodes session sample t, e) refl

  -- A sink with a decoder runs the callback once on the mapping.
  pub video-run :
      (payload : List ℕ) (timestamp : ℕ) (k : DecoderSink os) (s : Frame.State) (d : H264Decoder)
      → k.decoder ≡ some d
      → k.machine.state.1 ≡ ok s
      → (on_video_data os payload timestamp k).machine.state.1
        ≡ decompression_callback 0 (some (image_for d payload timestamp k.machine.state)) s
  unfolding on_video_data decode_with image_for
  video-run payload timestamp k s d has mapping =
      let (sample, t) = sample_for os d payload timestamp k.machine.state in
      let keeps =
        sample_for-Kept os os-IsWorking (λ t. t.1 ≡ ok s) (setup-Kept s) d payload timestamp
          k.machine.state mapping in
      ap (λ o. (decode_with os o payload timestamp k.machine).state.1) has
      ∙ ap (λ t. t.1) (decode_avcc-Decoded os os-IsWorking d payload timestamp k.machine)
      ∙ one_callback d.session sample t.0 t.1 s keeps

  pub video-IsDisplayed :
      (payload : List ℕ) (timestamp : ℕ) (k : DecoderSink os) (s : Frame.State)
      → write_index s + 1 < 2 ^ 64
      → IsReady s k
      → IsDisplayed payload timestamp k (on_video_data os payload timestamp k)
  unfolding image_for
  video-IsDisplayed payload timestamp k s small ready =
      let d = ready.decoder in
      let (sample, t) = sample_for os d payload timestamp k.machine.state in
      let image = good.image_of d.session sample t.0 in
      let (s', p', run, result, delivers) =
        callback-Delivers image s create (good.new_picture image.width image.height)
          (good.shown d.session sample t.0) (good.nv12 d.session sample t.0)
          (good.lock d.session sample t.0) small (good.creates image.width image.height)
          (good.pictures image.width image.height) in
      record {
        decoder = d;
        has = ready.has;
        after = s';
        mapping = video-run payload timestamp k s d ready.has ready.mapping ∙ run;
        picture = p';
        read = result;
        delivers = delivers;
      }

-- If the frameworks' calls succeed, each sample decodes to exactly one image, which is NV12, of
-- positive size and at most 1920x1080, and can be locked, CoreVideo makes the reader's buffers, the
-- mapping has met no fault, and the write index is below 2^64 - 1: when a session handles a sequence
-- header and then a packet of video data, both of bytes, the reader delivers, from the mapping as this
-- leaves it, pixel by pixel the image that the packet's payload decodes to with the decoder of the
-- header, whatever the sink was before and whatever the sockets do.
pub packets-IsDisplayed :
    (vt : VideoToolbox) (create : ℕ → ℕ → Option Picture) (good : IsDisplaying vt create)
    (rtmp : Rtmp) (tcp : Tcp) (stream_key : Option String) (header nalu : List ℕ) (t t' : ℕ)
    (config : AvcDecoderConfig) (payload : List ℕ)
    (w : World rtmp tcp (decoder_sink (with_callback vt))) (s : Frame.State)
    → AreBytes header
    → AreBytes nalu
    → IsHeader header config
    → IsNalu nalu payload
    → w.sink.machine.state.1 ≡ ok s
    → write_index s + 1 < 2 ^ 64
    → IsDisplayed vt create good payload
        (t' % 2 ^ 32)
        (on_decoder_config (with_callback vt) config w.sink)
        (handle_results rtmp tcp
          (decoder_sink (with_callback vt))
          stream_key
          (raised_event (video_data_received header t)
            ∷ raised_event (video_data_received nalu t')
            ∷ [])
          w).1.sink
packets-IsDisplayed vt create good rtmp tcp stream_key header nalu t t' config payload w s are are'
      h h' q small =
    subst
      (IsDisplayed vt create good payload (t' % 2 ^ 32)
        (on_decoder_config (with_callback vt) config w.sink))
      (sym (
        two_results (with_callback vt) rtmp tcp stream_key header nalu t t' config payload w are
          are' h h'))
      (video-IsDisplayed vt create good payload (t' % 2 ^ 32)
        (on_decoder_config (with_callback vt) config w.sink) s small
        (config-IsReady vt create good config w.sink s q))
