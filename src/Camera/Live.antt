-- ===== src/Camera/Live.antt =====
-- main.rs, decoder.rs and Stream.swift: what is displayed, the camera sends.
use rtmp_vcam.Prelude.{ℕ, ◌≡◌, refl, ap, ◌∙◌, some, List, ok, true}
use rtmp_vcam.Frame
use rtmp_vcam.Decoder.{H264Decoder}
use rtmp_vcam.Sink.{DecoderSink}
use rtmp_vcam.Reader.{Picture, read_latest_frame}
use rtmp_vcam.Reader.Shows.{Delivers}
use rtmp_vcam.Pipeline.{VideoToolbox, with_callback}
use rtmp_vcam.Pipeline.Live.{IsDisplaying, IsDisplayed, image_for}
use rtmp_vcam.Camera.{
  Platform, Source, send_pixel_buffer, deliver_or_black, read_from, connect, deliver_frame,
}
use rtmp_vcam.Camera.Sends.{Makes, IsWorking, SendsOne, send-SendsOne}

-- What the reader finds, the camera sends.
read-Sends :
    (os : Platform) (good : Makes os) (works : IsWorking os) (s : Source os) (q : ℕ) (p : Picture)
    → s.attached ≡ true
    → s.shm_pointer ≡ some q
    → read_latest_frame (λ w h. os.pixel_buffer w h s.platform) (os.contents q s.platform)
      ≡ ok (some p)
    → (s' : Source os) × (deliver_frame os s ≡ ok s') × SendsOne s s' p
unfolding deliver_frame connect read_from deliver_or_black
read-Sends os good works s q p attached e found =
    (send_pixel_buffer os p s, simp (attached, e, found) refl, send-SendsOne os good works p s)

-- The camera shows the shared frame buffer that the decoder of the sink writes.
abbrev pub IsShared :
    (vt : VideoToolbox) (os : Platform) → DecoderSink (with_callback vt) → Source os → ℕ → Type 0
IsShared vt os k s q =
    (st : Frame.State) → k.machine.state.1 ≡ ok st → os.contents q s.platform ≡ st.shm

-- The image that the data decodes to, with the decoder of the sink, is sent.
pub record IsSent (vt : VideoToolbox) (os : Platform) (s : Source os)
    (good : IsDisplaying vt (λ w h. os.pixel_buffer w h s.platform)) (payload : List ℕ)
    (timestamp : ℕ) (k : DecoderSink (with_callback vt)) : Type 0 where
  pub decoder : H264Decoder
  pub has : k.decoder ≡ some decoder
  pub after : Source os
  pub picture : Picture
  pub result : deliver_frame os s ≡ ok after
  pub sends : SendsOne s after picture
  pub delivers :
      Delivers
        (image_for vt
          (λ w h. os.pixel_buffer w h s.platform)
          good
          decoder
          payload
          timestamp
          k.machine.state)
        picture

module _ (vt : VideoToolbox) (os : Platform) (s : Source os) (q : ℕ)
    (good : IsDisplaying vt (λ w h. os.pixel_buffer w h s.platform)) (makes : Makes os)
    (works : IsWorking os) (attached : s.attached ≡ true) (mapped : s.shm_pointer ≡ some q) where
  pub displayed-IsSent :
      (payload : List ℕ) (timestamp : ℕ) (k k' : DecoderSink (with_callback vt))
      → IsShared vt os k' s q
      → IsDisplayed vt (λ w h. os.pixel_buffer w h s.platform) good payload timestamp k k'
      → IsSent vt os s good payload timestamp k
  displayed-IsSent payload timestamp k k' shared d =
      let (s', result, sends) = read-Sends os makes works s q d.picture attached mapped (
        ap (read_latest_frame (λ w h. os.pixel_buffer w h s.platform)) (shared d.after d.mapping)
        ∙ d.read) in
      record {
        decoder = d.decoder;
        has = d.has;
        after = s';
        picture = d.picture;
        result = result;
        sends = sends;
        delivers = d.delivers;
      }
