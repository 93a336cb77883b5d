-- ===== src/Pipeline/Tests.antt =====
-- Runs of the callback, a connection that decodes into the mapping, and the theorems there.
use rtmp_vcam.Prelude.{◌+◌, ◌≡◌, refl, arith, false, none, some, List, [], ◌∷◌, ok}
use rtmp_vcam.Server.{Read, handle_connection}
use rtmp_vcam.Session.Sample.{rml, rtmp, tcp}
use rtmp_vcam.Frame
use rtmp_vcam.Frame.{PixelBuffer, load_le}
use rtmp_vcam.Frame.Callback.{IsNv12}
use rtmp_vcam.Decoder.Sample.{counting}
use rtmp_vcam.Decoder.{Machine}
use rtmp_vcam.Sink.{new_sink, drop_sink, decoder_sink}
use rtmp_vcam.Pipeline.{Output, VideoToolbox, run_callbacks, with_callback}
use rtmp_vcam.Pipeline.Memory.{IsDocumented, accepted, IsSound, Advanced, run_callbacks-Advanced}
use rtmp_vcam.Pipeline.Whole.{IsSafe, connection-Safe}

abbrev image : PixelBuffer
image = record {
  lock_status = 0;
  width = 2;
  height = 2;
  y_plane = record { is_null = false; stride = 4; rows = 2; size = 8; bytes = λ a. 10 + a };
  uv_plane = record { is_null = false; stride = 2; rows = 1; size = 2; bytes = λ a. 50 + a };
}

image-IsNv12 : IsNv12 image
image-IsNv12 = record {
  y = record { there = refl; count = refl; wide = omega arith; room = omega arith };
  uv = record { there = refl; count = refl; wide = omega arith; room = omega arith };
}

-- A frame, a frame that was not decoded, no frame, and a frame.
abbrev outputs : List Output
outputs = (0, some image) ∷ (5, some image) ∷ (0, none) ∷ (0, some image) ∷ []

outputs-IsDocumented : IsDocumented outputs
outputs-IsDocumented = (image-IsNv12, (image-IsNv12, (image-IsNv12, tt)))

abbrev zeros : Frame.State
zeros = record { shm = λ a. 0; locks = 0 }

zeros-IsSound : IsSound zeros
zeros-IsSound = record {
  index = omega arith;
  width = omega arith;
  height = omega arith;
  locks = refl;
}

accepts_two : accepted outputs ≡ 2
accepts_two = refl

run_callbacks-Advanced_example :
    Advanced zeros (accepted outputs) (run_callbacks outputs (ok zeros))
run_callbacks-Advanced_example =
    run_callbacks-Advanced outputs zeros outputs-IsDocumented zeros-IsSound

abbrev vt : VideoToolbox
vt = record { calls = counting; outputs = λ session sample t. outputs }

abbrev idle : Machine (with_callback vt)
idle = record { state = (0, ok zeros); entries = [] }

-- The third read is a sequence header, the fourth a frame.
abbrev reads : List Read
reads =
    some (9 ∷ [])
    ∷ some (1 ∷ [])
    ∷ some (
        5 ∷ 0x17 ∷ 0 ∷ 0 ∷ 0 ∷ 0 ∷ 1 ∷ 66 ∷ 0 ∷ 30 ∷ 0xFF ∷ 0xE1 ∷ 0 ∷ 1 ∷ 0x67 ∷ 1 ∷ 0 ∷ 1 ∷ 0x68
        ∷ [])
    ∷ some (5 ∷ 0x27 ∷ 1 ∷ 0 ∷ 0 ∷ 0 ∷ 7 ∷ [])
    ∷ some []
    ∷ []

connection-Safe_example :
    let outcome =
      handle_connection rml rtmp tcp
        (decoder_sink (with_callback vt))
        none
        reads
        []
        (new_sink (with_callback vt) 9 idle) in
    IsSafe (drop_sink (with_callback vt) outcome.sink).state.1
connection-Safe_example =
    connection-Safe vt (λ session sample t. outputs-IsDocumented) rml rtmp tcp none reads [] 9 idle
      (record { state = zeros; result = refl; sound = zeros-IsSound })
