-- ===== src/Pipeline/Stream.antt =====
-- main.rs, decoder.rs and Stream.swift: after any calls of the sink, the newest frame is shown.
use rtmp_vcam.Prelude.{
  ℕ, ◌+◌, ◌^◌, ◌≤◌, ◌<◌, ◌≡◌, refl, ap, ◌∙◌, sym, subst, arith, Option, none, some, List, [], ◌∷◌,
  ◌++◌, length, ok,
}
use rtmp_vcam.Flv.{AvcDecoderConfig}
use rtmp_vcam.Frame
use rtmp_vcam.Frame.{PixelBuffer, decompression_callback}
use rtmp_vcam.Frame.Callback.{write_index, callback-Published}
use rtmp_vcam.Decoder.{H264Decoder}
use rtmp_vcam.Decoder.Working.{sample_for}
use rtmp_vcam.Session.Calls.{SinkCall, config_call, data_call, apply, apply-append}
use rtmp_vcam.Sink.{DecoderSink, on_decoder_config, decode_with, on_video_data, decoder_sink}
use rtmp_vcam.Reader.{Picture}
use rtmp_vcam.Pipeline.{VideoToolbox, with_callback}
use rtmp_vcam.Pipeline.Live.{
  IsDisplaying, IsDisplayed, IsReady, image_for, config-IsReady, video-run, video-IsDisplayed,
}

module _ (vt : VideoToolbox) (create : ℕ → ℕ → Option Picture) (good : IsDisplaying vt create) where
  abbrev K : Type 0
  K = DecoderSink (with_callback vt)

  -- A mapping with a write index of `n` at most.
  pub record IsOpen (n : ℕ) (k : K) : Type 0 where
    pub state : Frame.State
    pub mapping : k.machine.state.1 ≡ ok state
    pub bound : write_index state ≤ n

  -- With a decoder, too.
  pub record HasDecoder (n : ℕ) (k : K) : Type 0 where
    pub opened : IsOpen n k
    pub ready : IsReady vt create good opened.state k

  config-HasDecoder :
      (n : ℕ) (config : AvcDecoderConfig) (k : K)
      → IsOpen n k
      → HasDecoder n (on_decoder_config (with_callback vt) config k)
  config-HasDecoder n config k o =
      let ready = config-IsReady vt create good config k o.state o.mapping in
      record {
        opened = record { state = o.state; mapping = ready.mapping; bound = o.bound };
        ready = ready;
      }

  -- The callback counts one frame more.
  video-IsOpen :
      (n : ℕ) (payload : List ℕ) (t : ℕ) (k : K) (d : H264Decoder)
      → n + 1 < 2 ^ 64
      → k.decoder ≡ some d
      → IsOpen n k
      → IsOpen (n + 1) (on_video_data (with_callback vt) payload t k)
  unfolding image_for
  video-IsOpen n payload t k d small has o =
      let (sample, u) = sample_for (with_callback vt) d payload t k.machine.state in
      let (s', run, done) =
        callback-Published (good.image_of d.session sample u.0) o.state
          (good.shown d.session sample u.0).fits (good.nv12 d.session sample u.0)
          (good.lock d.session sample u.0) in
      record {
        state = s';
        mapping = video-run vt create good payload t k o.state d has o.mapping ∙ run;
        bound = omega (arith, done.index, o.bound);
      }

  -- Without a decoder, video data is dropped.
  dropped :
      (payload : List ℕ) (t : ℕ) (k : K)
      → k.decoder ≡ none
      → (on_video_data (with_callback vt) payload t k).machine ≡ k.machine
  unfolding on_video_data decode_with
  dropped payload t k e = ap (λ o. decode_with (with_callback vt) o payload t k.machine) e

  option_video :
      (n : ℕ) (payload : List ℕ) (t : ℕ) (k : K) (o : Option H264Decoder)
      → n + 1 < 2 ^ 64
      → k.decoder ≡ o
      → IsOpen n k
      → IsOpen (n + 1) (on_video_data (with_callback vt) payload t k)
  option_video n payload t k none small e o = record {
    state = o.state;
    mapping = ap (λ m. m.state.1) (dropped payload t k e) ∙ o.mapping;
    bound = omega (arith, o.bound);
  }
  option_video n payload t k (some d) small e o = video-IsOpen n payload t k d small e o

  kept_decoder :
      (payload : List ℕ) (t : ℕ) (k : K)
      → (on_video_data (with_callback vt) payload t k).decoder ≡ k.decoder
  unfolding on_video_data
  kept_decoder payload t k = refl

  video-HasDecoder :
      (n : ℕ) (payload : List ℕ) (t : ℕ) (k : K)
      → n + 1 < 2 ^ 64
      → HasDecoder n k
      → HasDecoder (n + 1) (on_video_data (with_callback vt) payload t k)
  video-HasDecoder n payload t k small h =
      let o = video-IsOpen n payload t k h.ready.decoder small h.ready.has h.opened in
      record {
        opened = o;
        ready = record {
          decoder = h.ready.decoder;
          has = kept_decoder payload t k ∙ h.ready.has;
          mapping = o.mapping;
        };
      }

  grows : (n m : ℕ) (k : K) → n ≤ m → IsOpen n k → IsOpen m k
  grows n m k h o = record { state = o.state; mapping = o.mapping; bound = omega (arith, o.bound) }

  -- Each call counts one frame at most.
  apply-IsOpen :
      (calls : List SinkCall) (n : ℕ) (k : K)
      → n + length calls < 2 ^ 64
      → IsOpen n k
      → IsOpen (n + length calls) (apply (decoder_sink (with_callback vt)) calls k)
  apply-IsOpen [] n k small o = grows n (n + 0) k (omega arith) o
  apply-IsOpen (config_call config ∷ calls) n k small o =
      let next = config-HasDecoder n config k o in
      let k' = on_decoder_config (with_callback vt) config k in
      grows (n + length calls) (n + length (config_call config ∷ calls)) _ (omega arith)
        (apply-IsOpen calls n k' (omega arith) next.opened)
  apply-IsOpen (data_call payload t ∷ calls) n k small o =
      let k' = on_video_data (with_callback vt) payload t k in
      grows (n + 1 + length calls) (n + length (data_call payload t ∷ calls)) _ (omega arith) (
        apply-IsOpen calls (n + 1) k' (omega arith)
          (option_video n payload t k k.decoder (omega arith) refl o))

  grows_decoder : (n m : ℕ) (k : K) → n ≤ m → HasDecoder n k → HasDecoder m k
  unfolding grows
  grows_decoder n m k h d = record { opened = grows n m k h d.opened; ready = d.ready }

  -- A decoder stays.
  apply-HasDecoder :
      (calls : List SinkCall) (n : ℕ) (k : K)
      → n + length calls < 2 ^ 64
      → HasDecoder n k
      → HasDecoder (n + length calls) (apply (decoder_sink (with_callback vt)) calls k)
  apply-HasDecoder [] n k small h = grows_decoder n (n + 0) k (omega arith) h
  apply-HasDecoder (config_call config ∷ calls) n k small h =
      grows_decoder (n + length calls) (n + length (config_call config ∷ calls)) _ (omega arith) (
        apply-HasDecoder calls n (on_decoder_config (with_callback vt) config k) (omega arith)
          (config-HasDecoder n config k h.opened))
  apply-HasDecoder (data_call payload t ∷ calls) n k small h =
      grows_decoder (n + 1 + length calls) (n + length (data_call payload t ∷ calls)) _
        (omega arith)
        (apply-HasDecoder calls (n + 1) (on_video_data (with_callback vt) payload t k) (omega arith)
          (video-HasDecoder n payload t k (omega arith) h))

  -- If the frameworks' calls succeed, each sample decodes to one NV12 image of a size that is shown,
  -- and the write index does not wrap: after any calls of the sink, a configuration and any calls
  -- again, video data is what the reader delivers next, pixel by pixel the image that it decodes to
  -- with the decoder that the sink has then.
  pub calls-IsDisplayed :
      (before middle : List SinkCall) (config : AvcDecoderConfig) (payload : List ℕ) (t : ℕ) (k : K)
      (s : Frame.State)
      → k.machine.state.1 ≡ ok s
      → write_index s + length before + length middle + 1 < 2 ^ 64
      → let k' =
          apply (decoder_sink (with_callback vt)) (before ++ config_call config ∷ middle) k in
        IsDisplayed vt create good payload t k' (on_video_data (with_callback vt) payload t k')
  calls-IsDisplayed before middle config payload t k s mapping small =
      let sink = decoder_sink (with_callback vt) in
      let n = write_index s + length before in
      let open_before =
        apply-IsOpen before (write_index s) k (omega arith)
          (record { state = s; mapping = mapping; bound = omega arith }) in
      let k1 = apply sink before k in
      let h =
        apply-HasDecoder middle n (on_decoder_config (with_callback vt) config k1) (omega arith)
          (config-HasDecoder n config k1 open_before) in
      subst
        (λ k'.
          IsDisplayed vt create good payload t k' (on_video_data (with_callback vt) payload t k'))
        (sym (apply-append sink before (config_call config ∷ middle) k))
        (video-IsDisplayed vt create good payload t
          (apply sink middle (on_decoder_config (with_callback vt) config k1)) h.opened.state
          (omega (arith, h.opened.bound)) h.ready)
