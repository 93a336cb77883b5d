-- ===== src/Ipc.antt =====
-- crates/rtmp-vcam-app/src/ipc.rs: the file behind the shared frame buffer.
-- The system calls are parameters: each takes the state of the system and answers. Memory is what
-- the mapping shows. The path has no NUL, so `CString::new` does not fail. The ledger keeps the
-- descriptors opened and closed and the mappings made and removed, newest first.
pub mod Balance
pub mod Sample
mod Tests
use rtmp_vcam.Prelude.{
  ℕ, ◌+◌, Bool, true, false, List, ◌∷◌, Result, ok, err, ◌==◌, ltb, if◌then◌else◌,
}
use rtmp_vcam.Io.{Act, ◌>>=◌, ◌>>◌, pure, fail}
use rtmp_vcam.Frame.{Bytes, frame_header_size, frame_shm_size}

-- An `i32` that a system call returns.
pub data ℤ : Type 0 where
  pos negsuc : ℕ → ℤ

unfoldable pub is_negative : ℤ → Bool
is_negative (pos n) = false
is_negative (negsuc n) = true

-- `libc::MAP_FAILED`
abbrev pub map_failed : ℕ
map_failed = 0xFFFFFFFFFFFFFFFF

-- An error is its number. `mmap` gives a pointer and what the mapping shows.
pub record Libc : Type 1 where
  pub State : Type 0
  pub create_dir_all : State → Result ℕ (Unit {0}) × State
  pub open_file : State → ℤ × State
  pub ftruncate : ℤ → ℕ → State → ℕ × State
  pub mmap : ℕ → ℤ → State → (ℕ × Bytes) × State
  pub munmap : ℕ → ℕ → State → State
  pub close : ℤ → State → State
  pub last_os_error : State → ℕ

pub data Entry : Type 0 where
  opened closed : ℤ → Entry
  mapped unmapped : ℕ → Entry

pub record SharedFrameBuffer : Type 0 where
  pub ptr : ℕ
  pub fd : ℤ

pub record System (libc : Libc) : Type 0 where
  pub state : libc.State
  pub shm : Bytes
  pub entries : List Entry

module _ (libc : Libc) where
  open libc use {State, create_dir_all, open_file, ftruncate, mmap, munmap, close, last_os_error}

  abbrev pub M : Type 0 → Type 0
  M A = Act ℕ (System libc) A

  unfoldable pub make_parent : M (Unit {0})
  make_parent s = let (r, state) = create_dir_all s.state in (r, record s { state = state })

  -- `libc::close(fd)`
  unfoldable pub close_file : ℤ → System libc → System libc
  close_file fd s = record s { state = close fd s.state; entries = closed fd ∷ s.entries }

  -- `let err = io::Error::last_os_error(); libc::close(fd); return Err(err);`
  unfoldable pub give_up : ℤ → M SharedFrameBuffer
  unfolding close_file
  give_up fd s = (err (last_os_error s.state), close_file fd s)

  -- `ptr::write_bytes(ptr, 0, FRAME_HEADER_SIZE)`
  unfoldable pub zero_header : Bytes → Bytes
  zero_header shm a = if ltb a frame_header_size then 0 else shm a

  -- The pointer that `mmap` gave, behind it what it shows.
  unfoldable pub with_mapping : ℤ → ℕ → Bytes → M SharedFrameBuffer
  unfolding give_up
  with_mapping fd ptr bytes s = if ptr == map_failed then give_up fd s else (
    ok (record { ptr = ptr; fd = fd }),
    record s { shm = zero_header bytes; entries = mapped ptr ∷ s.entries },
  )

  unfoldable pub map_file : ℤ → M SharedFrameBuffer
  unfolding with_mapping
  map_file fd s =
      let ((ptr, bytes), state) = mmap frame_shm_size fd s.state in
      with_mapping fd ptr bytes (record s { state = state })

  unfoldable pub size_file : ℤ → M SharedFrameBuffer
  unfolding map_file
  size_file fd s =
      let (status, state) = ftruncate fd frame_shm_size s.state in
      let s' : System libc = record s { state = state } in
      if status == 0 then map_file fd s' else give_up fd s'

  -- The descriptor that `open` gave.
  unfoldable pub with_file : ℤ → M SharedFrameBuffer
  unfolding size_file
  with_file fd s =
      if is_negative fd
      then (err (last_os_error s.state), s)
      else size_file fd (record s { entries = opened fd ∷ s.entries })

  unfoldable pub open_and_map : M SharedFrameBuffer
  unfolding with_file
  open_and_map s = let (fd, state) = open_file s.state in with_file fd (record s { state = state })

  unfoldable pub create : M SharedFrameBuffer
  unfolding make_parent
  create = make_parent >> open_and_map

  unfoldable pub unmap : ℕ → System libc → System libc
  unmap ptr s = if ptr == 0 then s else record s {
    state = munmap ptr frame_shm_size s.state;
    entries = unmapped ptr ∷ s.entries;
  }

  -- `Drop for SharedFrameBuffer`
  unfoldable pub drop_buffer : SharedFrameBuffer → System libc → System libc
  unfolding unmap
  drop_buffer b s = if is_negative b.fd then unmap b.ptr s else close_file b.fd (unmap b.ptr s)
