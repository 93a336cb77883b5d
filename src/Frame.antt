-- ===== src/Frame.antt =====
-- crates/video-pipeline/src/decoder.rs: the layout of the shared frame buffer, and the callback
-- that copies a decoded frame into it.
-- The mapping is a function from offsets to bytes. A copy that would read or write outside its
-- buffer is undefined behaviour of the source, here a fault. Numbers in the mapping are little
-- endian, the order of the machines that the program is built for. `usize` is 64 bits wide, and a
-- product of the sizes of a frame in memory does not wrap.
-- CoreVideo is not part of the program: a pixel buffer is what its calls answer.
pub mod Memory
pub mod Rows
mod Planes
pub mod Callback
mod Publish
pub mod Skips
mod Tests
use rtmp_vcam.Prelude.{
  ℕ, zero, suc, ◌+◌, ◌-◌, ◌*◌, ◌/◌, ◌%◌, ◌^◌, Bool, Option, none, some, ◌&&◌, ◌||◌, not, ltb, leb,
  ◌==◌, if◌then◌else◌, Result, ok, err, ◌>>=◌,
}

abbrev pub frame_header_size : ℕ
frame_header_size = 64

abbrev pub max_width : ℕ
max_width = 1920

abbrev pub max_height : ℕ
max_height = 1080

-- NV12
abbrev pub max_frame_size : ℕ
max_frame_size = max_width * max_height * 3 / 2

-- Two buffers.
abbrev pub frame_shm_size : ℕ
frame_shm_size = frame_header_size + 2 * max_frame_size

abbrev pub Bytes : Type 0
Bytes = ℕ → ℕ

pub data Fault : Type 0 where
  out_of_bounds : Fault

-- What CoreVideo answers for one plane of a locked pixel buffer: whether its base address is null,
-- its bytes per row, its rows, and the `size` bytes behind the base address.
pub record Plane : Type 0 where
  pub is_null : Bool
  pub stride : ℕ
  pub rows : ℕ
  pub size : ℕ
  pub bytes : Bytes

-- What CoreVideo answers for a pixel buffer. The lock's status is 0 on success.
pub record PixelBuffer : Type 0 where
  pub lock_status : ℕ
  pub width : ℕ
  pub height : ℕ
  pub y_plane : Plane
  pub uv_plane : Plane

-- `copy_nonoverlapping(src + from, shm + to, n)`
unfoldable pub copy : Plane → ℕ → ℕ → ℕ → Bytes → Result Fault Bytes
copy src from to n shm =
    if ltb src.size (from + n)
    then err out_of_bounds
    else if ltb frame_shm_size (to + n)
    then err out_of_bounds
    else ok λ a. if leb to a && ltb a (to + n) then src.bytes (from + (a - to)) else shm a

-- `for row in row..row + n`
unfoldable pub copy_rows : ℕ → ℕ → Plane → ℕ → ℕ → Bytes → Result Fault Bytes
copy_rows zero row src width dst shm = ok shm
copy_rows (suc n) row src width dst shm = do
  shm' ← copy src (row * src.stride) (dst + row * width) width shm
  copy_rows n (row + 1) src width dst shm'

-- The copy of a plane, the same code for both planes.
unfoldable pub copy_plane : Plane → ℕ → ℕ → Bytes → Result Fault Bytes
copy_plane src width dst shm =
    if src.is_null
    then ok shm
    else if src.stride == width
    then copy src 0 dst (width * src.rows) shm
    else copy_rows src.rows 0 src width dst shm

-- The number in the `n` bytes at `at`.
abbrev pub load_le : ℕ → ℕ → Bytes → ℕ
load_le zero at shm = 0
load_le (suc n) at shm = shm at + 256 * load_le n (at + 1) shm

abbrev pub store_byte : ℕ → ℕ → Bytes → Bytes
store_byte at v shm a = if a == at then v else shm a

abbrev pub store_le : ℕ → ℕ → ℕ → Bytes → Bytes
store_le zero at v shm = shm
store_le (suc n) at v shm = store_byte at (v % 256) (store_le n (at + 1) (v / 256) shm)

-- The mapping, and how often the pixel buffer is locked.
pub record State : Type 0 where
  pub shm : Bytes
  pub locks : ℕ

abbrev pub slot_offset : ℕ → ℕ
slot_offset write_idx = frame_header_size + write_idx % 2 * max_frame_size

-- The dimensions, and then the write index one further.
unfoldable pub publish : ℕ → ℕ → Bytes → Bytes
publish width height shm =
    let shm' = store_le 4 12 (height % 2 ^ 32) (store_le 4 8 (width % 2 ^ 32) shm) in
    store_le 8 0 ((load_le 8 0 shm' + 1) % 2 ^ 64) shm'

-- What the callback does with a locked pixel buffer whose size it accepts.
unfoldable pub copy_frame : PixelBuffer → State → Result Fault State
copy_frame image s = do
  let frame_dst = slot_offset (load_le 8 0 s.shm)
  shm ← copy_plane image.y_plane image.width frame_dst s.shm
  shm' ← copy_plane image.uv_plane image.width (frame_dst + image.width * image.y_plane.rows) shm
  ok (record { shm = publish image.width image.height shm'; locks = s.locks - 1 })

unfoldable pub with_buffer : PixelBuffer → State → Result Fault State
with_buffer image s =
    if not (image.lock_status == 0)
    then ok s
    else let locked : State = record s { locks = s.locks + 1 } in
      if ltb max_width image.width || ltb max_height image.height
      then ok (record locked { locks = locked.locks - 1 })
      else copy_frame image locked

-- `none` is a null image buffer.
unfoldable pub decompression_callback : ℕ → Option PixelBuffer → State → Result Fault State
decompression_callback status image s =
    if not (status == 0)
    then ok s
    else elim image [ none ↦ ok s | some buffer ↦ with_buffer buffer s ]
