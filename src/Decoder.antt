-- ===== src/Decoder.antt =====
-- The H.264 decoder of crates/video-pipeline: decoder.rs without its callback, and
-- format.rs.
-- VideoToolbox, CoreMedia and CoreFoundation are parameters: each call takes their state and
-- answers. An object is a number, null is 0, and a status is 0 on success. The decoder keeps the
-- list of what it has gained, given back and used, newest first: objects that a Create call has
-- handed over, boxes, releases, frees, and the objects that a call reads. A call that may run the
-- callback reads its box, which holds `shm_ptr`.
pub mod Ledger
pub mod Life
pub mod Sample
pub mod Making
pub mod Never
pub mod Over
pub mod States
pub mod Working
mod Tests
use rtmp_vcam.Prelude.{
  ℕ, ◌+◌, ◌≡◌, Bool, Option, none, some, List, [], ◌∷◌, ◌++◌, map, Result, ok, err, ◌==◌, not,
  if◌then◌else◌, length,
}
use rtmp_vcam.Ffi.{CmTime, make, invalid, CmSampleTimingInfo}
use rtmp_vcam.Io.{Act, ◌>>=◌, ◌>>◌, pure, fail}

-- The calls of Apple's frameworks. A pair of numbers is a status and the object put out.
pub record Frameworks : Type 1 where
  pub State : Type 0
  pub format_create : List (List ℕ) → List ℕ → ℕ → State → (ℕ × ℕ) × State
  pub dictionary_create : ℕ → State → ℕ × State
  pub number_create : ℕ → State → ℕ × State
  pub set_pixel_format : ℕ → ℕ → State → State
  pub set_io_surface : ℕ → ℕ → State → State
  pub box_new : ℕ → State → ℕ × State
  pub session_create : ℕ → ℕ → ℕ → State → (ℕ × ℕ) × State
  pub session_invalidate : ℕ → State → State
  pub block_create : ℕ → State → (ℕ × ℕ) × State
  pub replace_bytes : List ℕ → ℕ → State → ℕ × State
  pub sample_create : ℕ → ℕ → CmSampleTimingInfo → ℕ → State → (ℕ × ℕ) × State
  pub decode_frame : ℕ → ℕ → State → ℕ × State
  pub wait_frames : ℕ → State → ℕ × State

-- What is gained, given back and used.
pub data Entry : Type 0 where
  created released boxed freed used : ℕ → Entry

pub data DecodeError : Type 0 where
  format_failed session_failed block_failed replace_failed sample_failed decode_failed wait_failed :
      ℕ → DecodeError

pub record H264Decoder : Type 0 where
  pub session : ℕ
  pub format_desc : ℕ
  pub ctx : ℕ

pub record Machine (os : Frameworks) : Type 0 where
  pub state : os.State
  pub entries : List Entry

module _ (os : Frameworks) where
  open os use {
    State, format_create, dictionary_create, number_create, set_pixel_format, set_io_surface,
    box_new, session_create, session_invalidate, block_create, replace_bytes, sample_create,
    decode_frame, wait_frames,
  }

  abbrev pub M : Type 0 → Type 0
  M A = Act DecodeError (Machine os) A

  -- A call that answers, one that does not, and an entry.
  abbrev pub ask : {A : Type 0} → (State → A × State) → M A
  ask f m = let (a, state) = f m.state in (ok a, record m { state = state })

  abbrev pub tell : (State → State) → M (Unit {0})
  tell f m = (ok tt, record m { state = f m.state })

  abbrev pub note : Entry → M (Unit {0})
  note e m = (ok tt, record m { entries = e ∷ m.entries })

  -- The Create calls that answer with a status hand an object over on success.
  abbrev pub check : (ℕ → DecodeError) → ℕ × ℕ → M ℕ
  check failed (status, object) m =
      if status == 0 then (do note (created object); pure object) m else (err (failed status), m)

  -- `if !p.is_null() { CFRelease(p) }`
  abbrev pub release_unless_null : ℕ → M (Unit {0})
  release_unless_null p m = if p == 0 then (ok tt, m) else note (released p) m

  -- `if !p.is_null() { drop(Box::from_raw(p)) }`
  abbrev pub free_unless_null : ℕ → M (Unit {0})
  free_unless_null p m = if p == 0 then (ok tt, m) else note (freed p) m

  -- FormatDescription::from_h264_parameter_sets: the SPS and then the PPS, with their sizes.
  unfoldable pub from_h264_parameter_sets : List (List ℕ) → List (List ℕ) → ℕ → M ℕ
  from_h264_parameter_sets sps_list pps_list nalu_length_size = do
    let pointers = sps_list ++ pps_list
    let sizes = map (λ s. length s) sps_list ++ map (λ s. length s) pps_list
    answer ← ask (format_create pointers sizes nalu_length_size)
    check format_failed answer

  -- The dictionary is handed over; the number and the inner dictionary are released.
  unfoldable pub create_destination_attributes : M ℕ
  create_destination_attributes = do
    dict ← ask (dictionary_create 4)
    note (created dict)
    pixel_format ← ask (number_create 0x34323076)
    note (created pixel_format)
    note (used dict)
    note (used pixel_format)
    tell (set_pixel_format dict pixel_format)
    note (released pixel_format)
    io_surface ← ask (dictionary_create 0)
    note (created io_surface)
    note (used dict)
    note (used io_surface)
    tell (set_io_surface dict io_surface)
    note (released io_surface)
    pure dict

  -- What `new` does with the status of the session: on a failure the box and, as it goes out of
  -- scope, the format description are given back.
  unfoldable pub with_status : ℕ → ℕ → ℕ × ℕ → M H264Decoder
  with_status format_desc ctx (status, session) =
      if status == 0
      then (do
        note (created session)
        pure (record { session = session; format_desc = format_desc; ctx = ctx }))
      else (do note (freed ctx); release_unless_null format_desc; fail (session_failed status))

  unfoldable pub with_attributes : ℕ → ℕ → ℕ → M H264Decoder
  unfolding with_status
  with_attributes shm_ptr format_desc dest_attrs = do
    ctx ← ask (box_new shm_ptr)
    note (boxed ctx)
    note (used format_desc)
    note (used dest_attrs)
    answer ← ask (session_create format_desc dest_attrs ctx)
    release_unless_null dest_attrs
    with_status format_desc ctx answer

  unfoldable pub with_format : ℕ → ℕ → M H264Decoder
  unfolding create_destination_attributes
  with_format shm_ptr format_desc = do
    dest_attrs ← create_destination_attributes
    with_attributes shm_ptr format_desc dest_attrs

  unfoldable pub new : List (List ℕ) → List (List ℕ) → ℕ → ℕ → M H264Decoder
  unfolding from_h264_parameter_sets
  new sps_list pps_list nalu_length_size shm_ptr = do
    format_desc ← from_h264_parameter_sets sps_list pps_list nalu_length_size
    with_format shm_ptr format_desc

  unfoldable pub decode_sample : H264Decoder → ℕ → M (Unit {0})
  decode_sample d sample = do
    note (used d.session)
    note (used d.ctx)
    note (used sample)
    status ← ask (decode_frame d.session sample)
    note (released sample)
    if status == 0 then pure tt else fail (decode_failed status)

  -- The block is released whether a sample buffer was made or not.
  unfoldable pub with_sample : H264Decoder → ℕ → ℕ × ℕ → M (Unit {0})
  unfolding decode_sample
  with_sample d block (status, sample) =
      if status == 0
      then (do note (created sample); note (released block); decode_sample d sample)
      else (do note (released block); fail (sample_failed status))

  pub timing_of : ℕ → CmSampleTimingInfo
  unfolding make invalid
  timing_of timestamp_ms = record {
    duration = make 1 30;
    presentation_time_stamp = make timestamp_ms 1000;
    decode_time_stamp = invalid;
  }

  -- A block that holds the data becomes a sample, or is released.
  unfoldable pub filled : H264Decoder → List ℕ → ℕ → ℕ → ℕ → M (Unit {0})
  unfolding with_sample timing_of
  filled d avcc_data timestamp_ms block status =
      if status == 0
      then (do
        note (used block)
        note (used d.format_desc)
        answer ← ask (sample_create block d.format_desc (timing_of timestamp_ms) (length avcc_data))
        with_sample d block answer)
      else (do note (released block); fail (replace_failed status))

  unfoldable pub with_block : H264Decoder → List ℕ → ℕ → ℕ → M (Unit {0})
  unfolding filled
  with_block d avcc_data timestamp_ms block = do
    note (used block)
    status ← ask (replace_bytes avcc_data block)
    filled d avcc_data timestamp_ms block status

  unfoldable pub decode_avcc : H264Decoder → List ℕ → ℕ → M (Unit {0})
  unfolding with_block
  decode_avcc d avcc_data timestamp_ms = do
    answer ← ask (block_create (length avcc_data))
    block ← check block_failed answer
    with_block d avcc_data timestamp_ms block

  unfoldable pub flush : H264Decoder → M (Unit {0})
  flush d = do
    note (used d.session)
    note (used d.ctx)
    status ← ask (wait_frames d.session)
    if status == 0 then pure tt else fail (wait_failed status)

  unfoldable pub drop_session : H264Decoder → M (Unit {0})
  drop_session d m =
      if d.session == 0
      then (ok tt, m)
      else (do
        note (used d.session)
        note (used d.ctx)
        tell (session_invalidate d.session)
        note (released d.session))
          m

  -- `drop`, and then that of the field `format_desc`.
  unfoldable pub drop_decoder : H264Decoder → M (Unit {0})
  unfolding drop_session
  drop_decoder d = do drop_session d; free_unless_null d.ctx; release_unless_null d.format_desc
