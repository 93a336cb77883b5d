-- ===== src/Pipeline/Sample.antt =====
-- Packets, frameworks and a session for the tests of the whole path.
use rtmp_vcam.Prelude.{ℕ, ◌+◌, ◌*◌, ◌/◌, refl, arith, false, Option, none, some, List, [], ◌∷◌, ok}
use rtmp_vcam.Flv.{AvcDecoderConfig}
use rtmp_vcam.Flv.Format.{IsHeader, IsNalu}
use rtmp_vcam.Session.{World}
use rtmp_vcam.Session.Sample.{rtmp, tcp}
use rtmp_vcam.Frame
use rtmp_vcam.Frame.{PixelBuffer}
use rtmp_vcam.Frame.Callback.{IsNv12}
use rtmp_vcam.Decoder.Sample.{counting}
use rtmp_vcam.Sink.{decoder_sink}
use rtmp_vcam.Reader.{Picture, Target}
use rtmp_vcam.Reader.Shows.{IsPicture}
use rtmp_vcam.Pipeline.{VideoToolbox, with_callback}
use rtmp_vcam.Pipeline.Live.{IsDisplaying}

-- Two by two pixels, whose bytes depend on the sample.
abbrev pub image : ℕ → PixelBuffer
image sample = record {
  lock_status = 0;
  width = 2;
  height = 2;
  y_plane = record { is_null = false; stride = 4; rows = 2; size = 8; bytes = λ a. sample + a };
  uv_plane = record { is_null = false; stride = 2; rows = 1; size = 2; bytes = λ a. sample + a };
}

pub image-IsNv12 : (sample : ℕ) → IsNv12 (image sample)
image-IsNv12 sample = record {
  y = record { there = refl; count = refl; wide = omega arith; room = omega arith };
  uv = record { there = refl; count = refl; wide = omega arith; room = omega arith };
}

abbrev pub vt : VideoToolbox
vt = record { calls = counting; outputs = λ session sample t. (0, some (image sample)) ∷ [] }

abbrev pub plane : ℕ → ℕ → Target
plane width rows = record {
  is_nil = false;
  stride = width;
  rows = rows;
  size = rows * width;
  bytes = λ a. 0;
}

abbrev pub new_picture : ℕ → ℕ → Picture
new_picture w h = record { width = w; height = h; y = plane w h; uv = plane w ((h + 1) / 2) }

abbrev pub create : ℕ → ℕ → Option Picture
create w h = some (new_picture w h)

pub new-IsPicture : (w h : ℕ) → IsPicture w h (new_picture w h)
new-IsPicture w h = record {
  width = refl;
  height = refl;
  y = record { there = refl; count = refl; wide = omega arith; room = omega arith };
  uv = record { there = refl; count = refl; wide = omega arith; room = omega arith };
}

pub good : IsDisplaying vt create
good = record {
  works = record {
    format_create = λ sets sizes n t. refl;
    session_create = λ f a c t. refl;
    block_create = λ n t. refl;
    replace_bytes = λ bytes b t. refl;
    sample_create = λ b f c n t. refl;
  };
  image_of = λ session sample t. image sample;
  decodes = λ session sample t. refl;
  shown = λ session sample t. omega arith;
  nv12 = λ session sample t. image-IsNv12 sample;
  lock = λ session sample t. refl;
  new_picture = new_picture;
  creates = λ w h. refl;
  pictures = λ w h. new-IsPicture w h;
}

abbrev pub config : AvcDecoderConfig
config = record { sps = (0x67 ∷ []) ∷ []; pps = (0x68 ∷ []) ∷ []; nalu_length_size = 4 }

abbrev pub header : List ℕ
header = 0x17 ∷ 0 ∷ 0 ∷ 0 ∷ 0 ∷ 1 ∷ 66 ∷ 0 ∷ 30 ∷ 0xFF ∷ 0xE1 ∷ 0 ∷ 1 ∷ 0x67 ∷ 1 ∷ 0 ∷ 1 ∷ 0x68 ∷ []

abbrev pub nalu : List ℕ
nalu = 0x27 ∷ 1 ∷ 0 ∷ 0 ∷ 0 ∷ 7 ∷ 8 ∷ []

pub header-IsHeader : IsHeader header config
header-IsHeader = record {
  tag = 0x17;
  time_0 = 0;
  time_1 = 0;
  time_2 = 0;
  body = 1 ∷ 66 ∷ 0 ∷ 30 ∷ 0xFF ∷ 0xE1 ∷ 0 ∷ 1 ∷ 0x67 ∷ 1 ∷ 0 ∷ 1 ∷ 0x68 ∷ [];
  shape = refl;
  codec = refl;
  describes = record {
    profile = 66;
    compat = 0;
    level = 30;
    size_byte = 0xFF;
    sps_byte = 0xE1;
    rest = [];
    shape = refl;
    size = refl;
    count = refl;
  };
}

pub nalu-IsNalu : IsNalu nalu (7 ∷ 8 ∷ [])
nalu-IsNalu = record {
  tag = 0x27;
  time_0 = 0;
  time_1 = 0;
  time_2 = 0;
  shape = refl;
  codec = refl;
  filled = omega arith;
}

abbrev pub zeros : Frame.State
zeros = record { shm = λ a. 0; locks = 0 }

abbrev pub start : World rtmp tcp (decoder_sink (with_callback vt))
start = record {
  session = [];
  stream = [];
  sink = record {
    decoder = none;
    shm_ptr = 9;
    machine = record { state = (0, ok zeros); entries = [] };
  };
}
