-- ===== src/Camera.antt =====
-- swift/CameraExtension/Extension/Stream.swift: CameraStreamSource, the stream of the virtual camera.
-- The system, CoreVideo, CoreMedia and CoreMediaIO are parameters: calls take the state of the
-- platform and answer, and the mapping shows any bytes at a read. The mapped file is taken to be of
-- kShmSize bytes, as SharedFrameBuffer makes it: openSharedMemory does not check its size, and a read
-- of a mapping behind the end of a shorter file would fault. The source keeps what it has sent
-- and, as SharedFrameBuffer does, the descriptors and mappings gained and given back, newest first.
-- The handler of the timer and the calls of the system run one at a time here.
mod Black
pub mod Connected
mod Live
pub mod Runs
mod Talk
pub mod Sends
mod Tests
use rtmp_vcam.Prelude.{
  ℕ, ◌+◌, ◌*◌, Bool, true, false, not, Option, none, some, List, [], ◌∷◌, ◌==◌, ltb, if◌then◌else◌,
  Result, ok, err, ◌>>=◌,
}
use rtmp_vcam.Frame.{Bytes, Fault, out_of_bounds}
use rtmp_vcam.Ipc.{ℤ, negsuc, is_negative, map_failed, Entry, opened, closed, mapped, unmapped}
use rtmp_vcam.Reader.{Target, Picture, read_latest_frame}

pub record Platform : Type 1 where
  pub State : Type 0
  pub open_file : State → ℤ × State
  pub mmap : ℤ → State → ℕ × State
  pub munmap : ℕ → State → State
  pub close : ℤ → State → State
  pub contents : ℕ → State → Bytes
  pub pixel_buffer : ℕ → ℕ → State → Option Picture
  pub has_format : Picture → State → Bool
  pub has_sample : Picture → State → Bool
  pub send : Picture → Bool → State → State

-- A frame that was handed to `send`, with whether it was marked by `.sampleDropped`.
pub record Sent : Type 0 where
  pub picture : Picture
  pub discontinuity : Bool

pub record Source (os : Platform) : Type 0 where
  pub platform : os.State
  pub entries : List Entry
  pub attached : Bool
  pub timer : Bool
  pub shm_pointer : Option ℕ
  pub shm_fd : ℤ
  pub is_streaming : Bool
  pub sequence_number : ℕ
  pub last_write_index : ℕ
  pub shm_retry_count : ℕ
  pub sent : List Sent

-- `memset(base, value, n)`
unfoldable pub memset : ℕ → ℕ → Target → Result Fault Target
memset value n dst =
    if ltb dst.size n
    then err out_of_bounds
    else ok (record dst { bytes = λ a. if ltb a n then value else dst.bytes a })

unfoldable pub fill_plane : ℕ → Target → Result Fault Target
unfolding memset
fill_plane value dst = if dst.is_nil then ok dst else memset value (dst.rows * dst.stride) dst

-- Black is 0 in luma and 128 in chroma.
unfoldable pub fill_black : Picture → Result Fault Picture
fill_black p = do y ← fill_plane 0 p.y; uv ← fill_plane 128 p.uv; ok (record p { y = y; uv = uv })

module _ (os : Platform) where
  open os use {
    State, open_file, mmap, munmap, close, contents, pixel_buffer, has_format, has_sample, send,
  }

  abbrev pub S : Type 0
  S = Source os

  -- `extensionStream` is set by the device that makes the source.
  pub new : State → S
  new t = record {
    platform = t;
    entries = [];
    attached = false;
    timer = false;
    shm_pointer = none;
    shm_fd = negsuc 0;
    is_streaming = false;
    sequence_number = 0;
    last_write_index = 0;
    shm_retry_count = 0;
    sent = [];
  }

  unfoldable pub with_pointer : ℤ → ℕ → S → S
  with_pointer fd p s =
      if p == map_failed
      then record s { platform = close fd s.platform; entries = closed fd ∷ s.entries }
      else record s { shm_fd = fd; shm_pointer = some p; entries = mapped p ∷ s.entries }

  unfoldable pub with_fd : ℤ → S → S
  unfolding with_pointer
  with_fd fd s =
      if is_negative fd
      then record s { shm_retry_count = s.shm_retry_count + 1 }
      else let (p, t) = mmap fd s.platform in
        with_pointer fd p (record s { platform = t; entries = opened fd ∷ s.entries })

  unfoldable pub open_shared_memory : S → S
  unfolding with_fd
  open_shared_memory s =
      let (fd, t) = open_file s.platform in with_fd fd (record s { platform = t })

  unfoldable pub unmap_pointer : Option ℕ → S → S
  unmap_pointer none s = s
  unmap_pointer (some p) s = record s {
    platform = munmap p s.platform;
    entries = unmapped p ∷ s.entries;
    shm_pointer = none;
  }

  unfoldable pub close_fd : S → S
  close_fd s = if is_negative s.shm_fd then s else record s {
    platform = close s.shm_fd s.platform;
    entries = closed s.shm_fd ∷ s.entries;
    shm_fd = negsuc 0;
  }

  unfoldable pub close_shared_memory : S → S
  unfolding unmap_pointer close_fd
  close_shared_memory s = close_fd (unmap_pointer s.shm_pointer s)

  unfoldable pub start_stream : S → S
  unfolding open_shared_memory
  start_stream s =
      if s.is_streaming
      then s
      else let s' =
          open_shared_memory
            (record s { is_streaming = true; sequence_number = 0; last_write_index = 0 }) in
        record s' { timer = true }

  -- `stopStream`, and what `deinit` calls.
  unfoldable pub stop_streaming : S → S
  unfolding close_shared_memory
  stop_streaming s = close_shared_memory (record s { is_streaming = false; timer = false })

  -- An error of `send` is only logged.
  unfoldable pub send_pixel_buffer : Picture → S → S
  send_pixel_buffer p s =
      if not (has_format p s.platform)
      then s
      else if not (has_sample p s.platform)
      then s
      else let first = s.sequence_number + 1 == 1 in
        record s {
          platform = send p first s.platform;
          sequence_number = s.sequence_number + 1;
          sent = record { picture = p; discontinuity = first } ∷ s.sent;
        }

  unfoldable pub black_frame : Option Picture → S → Result Fault S
  unfolding send_pixel_buffer
  black_frame none s = ok s
  black_frame (some p) s = do p' ← fill_black p; ok (send_pixel_buffer p' s)

  unfoldable pub deliver_black_frame : S → Result Fault S
  unfolding black_frame
  deliver_black_frame s = black_frame (pixel_buffer 1920 1080 s.platform) s

  unfoldable pub read_from : Option ℕ → S → Result Fault (Option Picture)
  read_from none s = ok none
  read_from (some p) s =
      read_latest_frame (λ w h. pixel_buffer w h s.platform) (contents p s.platform)

  unfoldable pub deliver_or_black : Option Picture → S → Result Fault S
  unfolding deliver_black_frame send_pixel_buffer
  deliver_or_black none s = deliver_black_frame s
  deliver_or_black (some p) s = ok (send_pixel_buffer p s)

  -- `if shmPointer == nil { openSharedMemory() }`
  unfoldable pub connect : Option ℕ → S → S
  unfolding open_shared_memory
  connect none s = open_shared_memory s
  connect (some p) s = s

  -- The handler of the timer.
  unfoldable pub deliver_frame : S → Result Fault S
  unfolding connect read_from deliver_or_black
  deliver_frame s =
      if not s.attached
      then ok s
      else let s' = connect s.shm_pointer s in
        do picture ← read_from s'.shm_pointer s'; deliver_or_black picture s'

  pub data Event : Type 0 where
    attach start stop tick : Event

  -- A timer that was cancelled does not fire.
  unfoldable pub on_event : Event → S → Result Fault S
  unfolding start_stream stop_streaming deliver_frame
  on_event attach s = ok (record s { attached = true })
  on_event start s = ok (start_stream s)
  on_event stop s = ok (stop_streaming s)
  on_event tick s = if s.timer then deliver_frame s else ok s

  unfoldable pub run_events : List Event → S → Result Fault S
  run_events [] s = ok s
  run_events (e ∷ events) s = do s' ← on_event e s; run_events events s'
