-- ===== src/Decoder/Sample.antt =====
-- Frameworks and an idle decoder's machine for the tests.
use rtmp_vcam.Prelude.{ℕ, suc, [], ◌==◌, if◌then◌else◌}
use rtmp_vcam.Decoder.{Frameworks, Machine}

-- The state is the number of objects so far, and only the eighth decodes.
abbrev pub counting : Frameworks
counting = record {
  State = ℕ;
  format_create = λ sets sizes size n. ((0, suc n), suc n);
  dictionary_create = λ capacity n. (suc n, suc n);
  number_create = λ value n. (suc n, suc n);
  set_pixel_format = λ dict value n. n;
  set_io_surface = λ dict value n. n;
  box_new = λ shm_ptr n. (suc n, suc n);
  session_create = λ format_desc attributes ctx n. ((0, suc n), suc n);
  session_invalidate = λ session n. n;
  block_create = λ size n. ((0, suc n), suc n);
  replace_bytes = λ avcc_data block n. (0, n);
  sample_create = λ block format_desc timing size n. ((0, suc n), suc n);
  decode_frame = λ session sample n. (if n == 8 then 0 else 7, n);
  wait_frames = λ session n. (0, n);
}

abbrev pub idle : Machine counting
idle = record { state = 0; entries = [] }
