-- ===== src/Pipeline.antt =====
-- crates/video-pipeline/src/decoder.rs: the callback record that `new` hands to VideoToolbox, and
-- its decoding call, which runs the callback on the shared frame buffer.
-- VideoToolbox is a parameter: what its calls answer, and for each decoding call the list of what
-- it passes to the callback, in order. The call is made with no flags, so it is synchronous: the
-- callback has run for all of them when it returns.
mod Display
pub mod Live
mod Memory
mod Packets
pub mod Sample
pub mod Stream
mod Whole
mod Tests
use rtmp_vcam.Prelude.{ℕ, Option, List, [], ◌∷◌, Result, ◌>>=◌}
use rtmp_vcam.Frame.{Fault, PixelBuffer, decompression_callback}
use rtmp_vcam.Frame
use rtmp_vcam.Decoder.{Frameworks}

-- A status and an image buffer.
abbrev pub Output : Type 0
Output = ℕ × Option PixelBuffer

abbrev pub Shm : Type 0
Shm = Result Fault Frame.State

pub record VideoToolbox : Type 1 where
  pub calls : Frameworks
  pub outputs : ℕ → ℕ → calls.State → List Output

unfoldable pub run_callbacks : List Output → Shm → Shm
run_callbacks [] shm = shm
run_callbacks ((status, image) ∷ outputs) shm =
    run_callbacks outputs (shm >>= λ s. decompression_callback status image s)

abbrev lift {ℓ} : {S T : Type 0} {A : Type ℓ} → (S → A × S) → S × T → A × (S × T)
lift f (s, t) = let (a, s') = f s in (a, (s', t))

-- The frameworks with the shared frame buffer beside their state.
abbrev pub with_callback : VideoToolbox → Frameworks
with_callback vt = record {
  State = vt.calls.State × Shm;
  format_create = λ sets sizes n. lift (vt.calls.format_create sets sizes n);
  dictionary_create = λ n. lift (vt.calls.dictionary_create n);
  number_create = λ n. lift (vt.calls.number_create n);
  set_pixel_format = λ d v (s, shm). (vt.calls.set_pixel_format d v s, shm);
  set_io_surface = λ d v (s, shm). (vt.calls.set_io_surface d v s, shm);
  box_new = λ p. lift (vt.calls.box_new p);
  session_create = λ f a c. lift (vt.calls.session_create f a c);
  session_invalidate = λ d (s, shm). (vt.calls.session_invalidate d s, shm);
  block_create = λ n. lift (vt.calls.block_create n);
  replace_bytes = λ bytes b. lift (vt.calls.replace_bytes bytes b);
  sample_create = λ b f timing n. lift (vt.calls.sample_create b f timing n);
  decode_frame = λ session sample (s, shm).
      let (status, s') = vt.calls.decode_frame session sample s in
      (status, (s', run_callbacks (vt.outputs session sample s) shm));
  wait_frames = λ session. lift (vt.calls.wait_frames session);
}
