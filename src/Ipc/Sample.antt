-- ===== src/Ipc/Sample.antt =====
-- System calls for the tests.
use rtmp_vcam.Prelude.{ℕ, [], ok}
use rtmp_vcam.Ipc.{pos, Libc, System}

-- `status` is what `ftruncate` returns, and also the number of the error.
abbrev pub with_status : ℕ → Libc
with_status status = record {
  State = ℕ;
  create_dir_all = λ n. (ok tt, n);
  open_file = λ n. (pos 3, n);
  ftruncate = λ fd size n. (status, n);
  mmap = λ size fd n. ((4096, λ a. 5), n);
  munmap = λ ptr size n. n;
  close = λ fd n. n;
  last_os_error = λ n. status;
}

abbrev pub started : (status : ℕ) → System (with_status status)
started status = record { state = 0; shm = λ a. 0; entries = [] }
