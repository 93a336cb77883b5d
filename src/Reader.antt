-- ===== src/Reader.antt =====
-- swift/CameraExtension/Extension/Stream.swift: readLatestFrame, the reader of the shared frame
-- buffer in the camera extension.
-- The mapping is a function from offsets to bytes, as for the writer; an access outside it or
-- outside a plane is a fault. CoreVideo is a parameter: for a width and a height it makes a pixel
-- buffer, or fails. Where the file is not mapped (`shmPointer` is nil) nothing is read: Camera.antt.
pub mod Rows
pub mod Any
pub mod Shows
pub mod Frames
mod Tests
use rtmp_vcam.Prelude.{
  ℕ, zero, suc, ◌+◌, ◌-◌, ◌*◌, ◌/◌, ◌%◌, Bool, Option, none, some, ◌&&◌, ◌||◌, not, ltb, leb, ◌==◌,
  if◌then◌else◌, Result, ok, err, ◌>>=◌,
}
use rtmp_vcam.Frame.{
  Bytes, Fault, out_of_bounds, max_width, max_height, frame_shm_size, slot_offset, load_le,
}

-- A plane of a new pixel buffer: whether its base address is nil, its bytes per row, its rows, and
-- the `size` bytes behind the base address.
pub record Target : Type 0 where
  pub is_nil : Bool
  pub stride : ℕ
  pub rows : ℕ
  pub size : ℕ
  pub bytes : Bytes

-- A pixel buffer, by its dimensions and its two planes.
pub record Picture : Type 0 where
  pub width : ℕ
  pub height : ℕ
  pub y : Target
  pub uv : Target

-- `memcpy(dst + to, shm + from, n)`
unfoldable pub memcpy : Bytes → ℕ → ℕ → ℕ → Target → Result Fault Target
memcpy shm from to n dst =
    if ltb frame_shm_size (from + n)
    then err out_of_bounds
    else if ltb dst.size (to + n)
    then err out_of_bounds
    else ok (record dst {
      bytes = λ a. if leb to a && ltb a (to + n) then shm (from + (a - to)) else dst.bytes a;
    })

-- `for row in row..<row + n`, from the packed rows at `src`.
unfoldable pub read_rows : ℕ → ℕ → Bytes → ℕ → ℕ → Target → Result Fault Target
read_rows zero row shm src width dst = ok dst
read_rows (suc n) row shm src width dst = do
  dst' ← memcpy shm (src + row * width) (row * dst.stride) width dst
  read_rows n (row + 1) shm src width dst'

-- The copy of a plane, the same code for both planes.
unfoldable pub read_plane : Bytes → ℕ → ℕ → Target → Result Fault Target
read_plane shm src width dst =
    if dst.is_nil
    then ok dst
    else if dst.stride == width
    then memcpy shm src 0 (width * dst.rows) dst
    else read_rows dst.rows 0 shm src width dst

-- The copy of both planes into a new pixel buffer. `none` is a buffer that CoreVideo did not make.
unfoldable pub fill_picture : Bytes → ℕ → ℕ → ℕ → Option Picture → Result Fault (Option Picture)
fill_picture shm frame_offset frame_width frame_height none = ok none
fill_picture shm frame_offset frame_width frame_height (some p) = do
  y ← read_plane shm frame_offset frame_width p.y
  uv ← read_plane shm (frame_offset + frame_width * frame_height) frame_width p.uv
  ok (some (record p { y = y; uv = uv }))

abbrev pub is_shown : ℕ → ℕ → Bool
is_shown width height =
    ltb 0 width && (ltb 0 height && (leb width max_width && leb height max_height))

unfoldable pub read_latest_frame : (ℕ → ℕ → Option Picture) → Bytes → Result Fault (Option Picture)
read_latest_frame create shm =
    let write_index = load_le 8 0 shm in
    let frame_width = load_le 4 8 shm in
    let frame_height = load_le 4 12 shm in
    if not (ltb 0 write_index)
    then ok none
    else if not (is_shown frame_width frame_height)
    then ok none
    else fill_picture shm (slot_offset (write_index - 1)) frame_width frame_height
        (create frame_width frame_height)
