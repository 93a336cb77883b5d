-- ===== src/Ipc/Balance.antt =====
-- ipc.rs: descriptors and mappings are given back, and the header starts at zero.
use rtmp_vcam.Prelude.{
  ◌<◌, ℕ, ◌+◌, ◌≡◌, ◌≢◌, refl, Bool-cases, inl, inr, List, [], ◌∷◌, Result, ok, err, ◌==◌,
  if◌then◌else◌, arith,
}
use rtmp_vcam.Io.{and_then}
use rtmp_vcam.Frame.{frame_header_size}
use rtmp_vcam.Ipc.{
  ℤ, pos, negsuc, is_negative, Libc, Entry, opened, closed, mapped, unmapped, SharedFrameBuffer,
  System, zero_header, close_file, with_file, open_and_map, create, make_parent, drop_buffer, unmap,
}

abbrev pub is_fd : ℕ → ℤ → ℕ
is_fd n (pos k) = if n == k then 1 else 0
is_fd n (negsuc k) = 0

-- How often the descriptor `n` was opened, and closed.
abbrev pub opens : ℕ → List Entry → ℕ
opens n [] = 0
opens n (opened fd ∷ entries) = is_fd n fd + opens n entries
opens n (closed fd ∷ entries) = opens n entries
opens n (mapped p ∷ entries) = opens n entries
opens n (unmapped p ∷ entries) = opens n entries

abbrev pub closes : ℕ → List Entry → ℕ
closes n [] = 0
closes n (closed fd ∷ entries) = is_fd n fd + closes n entries
closes n (opened fd ∷ entries) = closes n entries
closes n (mapped p ∷ entries) = closes n entries
closes n (unmapped p ∷ entries) = closes n entries

-- How often a mapping was made at `p`, and removed.
abbrev pub maps : ℕ → List Entry → ℕ
maps p [] = 0
maps p (mapped q ∷ entries) = (if p == q then 1 else 0) + maps p entries
maps p (opened fd ∷ entries) = maps p entries
maps p (closed fd ∷ entries) = maps p entries
maps p (unmapped q ∷ entries) = maps p entries

abbrev pub unmaps : ℕ → List Entry → ℕ
unmaps p [] = 0
unmaps p (unmapped q ∷ entries) = (if p == q then 1 else 0) + unmaps p entries
unmaps p (opened fd ∷ entries) = unmaps p entries
unmaps p (closed fd ∷ entries) = unmaps p entries
unmaps p (mapped q ∷ entries) = unmaps p entries

-- What a result owns of a descriptor, and of a mapping.
abbrev pub owned_fd : ℕ → Result ℕ SharedFrameBuffer → ℕ
owned_fd n (ok b) = is_fd n b.fd
owned_fd n (err e) = 0

abbrev pub owned_map : ℕ → Result ℕ SharedFrameBuffer → ℕ
owned_map p (ok b) = if p == b.ptr then 1 else 0
owned_map p (err e) = 0

abbrev pub FdGains : ℕ → List Entry → List Entry → ℕ → Type 0
FdGains n before after more =
    opens n after + closes n before ≡ opens n before + closes n after + more

abbrev pub MapGains : ℕ → List Entry → List Entry → ℕ → Type 0
MapGains p before after more =
    maps p after + unmaps p before ≡ maps p before + unmaps p after + more

module _ (libc : Libc) (n p : ℕ) where
  file-Gains :
      (fd : ℤ) (s : System libc)
      → let (r, s') = with_file libc fd s in
        FdGains n s.entries s'.entries (owned_fd n r)
        × MapGains p s.entries s'.entries (owned_map p r)
  unfolding with_file is_negative
  file-Gains (pos k) s = (ground arith, ground arith)
  file-Gains (negsuc k) s = (omega arith, omega arith)

  and_then-Gains :
      (r : Result ℕ (Unit {0})) (s : System libc)
      → let (r', s') = and_then r (λ _. open_and_map libc) s in
        FdGains n s.entries s'.entries (owned_fd n r')
        × MapGains p s.entries s'.entries (owned_map p r')
  unfolding open_and_map
  and_then-Gains (ok u) s =
      let (fd, state) = libc.open_file s.state in file-Gains fd (record s { state = state })
  and_then-Gains (err e) s = (omega arith, omega arith)

  -- `create` gains the descriptor and the mapping that its result owns, and where it fails
  -- nothing: no error path leaves a descriptor open or a mapping made.
  pub create-Gains :
      (s : System libc)
      → let (r, s') = create libc s in
        FdGains n s.entries s'.entries (owned_fd n r)
        × MapGains p s.entries s'.entries (owned_map p r)
  unfolding create make_parent
  create-Gains s =
      let (r, state) = libc.create_dir_all s.state in and_then-Gains r (record s { state = state })

  unmap-entries :
      (ptr : ℕ) (s : System libc)
      → p ≢ 0
      → let s' = unmap libc ptr s in
        (opens n s'.entries ≡ opens n s.entries)
        × (closes n s'.entries ≡ closes n s.entries)
        × (maps p s'.entries ≡ maps p s.entries)
        × (unmaps p s'.entries ≡ (if p == ptr then 1 else 0) + unmaps p s.entries)
  unfolding unmap
  unmap-entries ptr s ne = elim (Bool-cases (ptr == 0)) [
    | inl null ↦ rw null (refl, refl, refl, ground arith)
    | inr e ↦ rw e (refl, refl, refl, refl)
  ]

  drop_at-Gains :
      (ptr : ℕ) (fd : ℤ) (s : System libc)
      → p ≢ 0
      → let s' = drop_buffer libc (record { ptr = ptr; fd = fd }) s in
        (opens n s'.entries + closes n s.entries + is_fd n fd
          ≡ opens n s.entries + closes n s'.entries)
        × (maps p s'.entries + unmaps p s.entries + (if p == ptr then 1 else 0)
            ≡ maps p s.entries + unmaps p s'.entries)
  unfolding drop_buffer is_negative close_file
  drop_at-Gains ptr (pos k) s ne =
      let (o, c, m, u) = unmap-entries ptr s ne in (omega arith, omega arith)
  drop_at-Gains ptr (negsuc k) s ne =
      let (o, c, m, u) = unmap-entries ptr s ne in (omega arith, omega arith)

  -- Dropping a buffer closes its descriptor and removes its mapping, once each.
  pub drop_buffer-Gains :
      (b : SharedFrameBuffer) (s : System libc)
      → p ≢ 0
      → let s' = drop_buffer libc b s in
        (opens n s'.entries + closes n s.entries + is_fd n b.fd
          ≡ opens n s.entries + closes n s'.entries)
        × (maps p s'.entries + unmaps p s.entries + owned_map p (ok b)
            ≡ maps p s.entries + unmaps p s'.entries)
  drop_buffer-Gains b s ne = drop_at-Gains b.ptr b.fd s ne

-- The header of a new buffer is zero, whatever the file held: no frame is written yet, and its
-- dimensions are zero.
pub create-header :
    (libc : Libc) (s : System libc) (b : SharedFrameBuffer) (a : ℕ)
    → (create libc s).0 ≡ ok b
    → a < frame_header_size
    → (create libc s).1.shm a ≡ 0
unfolding create make_parent open_and_map with_file zero_header
create-header libc s b a e h = ground arith
