-- ===== src/Ffi.antt =====
-- crates/video-pipeline/src/ffi.rs: the times that the decoder hands over. The rest of the file
-- declares what the models take as parameters.
use rtmp_vcam.Prelude.{ℕ}

-- `CMTime`, whose value and timescale are not negative here.
pub record CmTime : Type 0 where
  pub value : ℕ
  pub timescale : ℕ
  pub flags : ℕ
  pub epoch : ℕ

unfoldable pub make : ℕ → ℕ → CmTime
make value timescale = record { value = value; timescale = timescale; flags = 1; epoch = 0 }

unfoldable pub invalid : CmTime
invalid = record { value = 0; timescale = 0; flags = 0; epoch = 0 }

-- `CMSampleTimingInfo`
pub record CmSampleTimingInfo : Type 0 where
  pub duration : CmTime
  pub presentation_time_stamp : CmTime
  pub decode_time_stamp : CmTime
