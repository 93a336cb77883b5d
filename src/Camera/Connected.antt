-- ===== src/Camera/Connected.antt =====
-- Stream.swift: a camera that streams holds one descriptor and one mapping at most, and one that
-- does not stream holds none.
use rtmp_vcam.Prelude.{
  ℕ, ◌+◌, ◌≡◌, refl, sym, ap, subst, ◌∙◌, arith, true, false, Bool-cases, inl, inr, Option, none,
  some, ◌∷◌, ◌==◌, if◌then◌else◌,
}
use rtmp_vcam.Ipc.{ℤ, pos, negsuc, is_negative, map_failed, opened}
use rtmp_vcam.Ipc.Balance.{is_fd, opens, closes, maps, unmaps}
use rtmp_vcam.Camera.{
  Platform, Source, with_pointer, with_fd, open_shared_memory, unmap_pointer, close_fd,
  close_shared_memory,
}

abbrev pub at_pointer : ℕ → Option ℕ → ℕ
at_pointer p none = 0
at_pointer p (some q) = if p == q then 1 else 0

-- A mapping goes with a descriptor.
abbrev pub Agree : Option ℕ → ℤ → Type 0
Agree none fd = is_negative fd ≡ true
Agree (some p) fd = is_negative fd ≡ false

-- What was opened and not closed is the source's descriptor, and what was mapped and not unmapped
-- is its mapping.
pub record Holds (os : Platform) (n p : ℕ) (s : Source os) : Type 0 where
  pub fds : opens n s.entries ≡ closes n s.entries + is_fd n s.shm_fd
  pub mappings : maps p s.entries ≡ unmaps p s.entries + at_pointer p s.shm_pointer
  pub agree : Agree s.shm_pointer s.shm_fd

module _ (os : Platform) (n p : ℕ) where
  pub negative_fd : (fd : ℤ) → is_negative fd ≡ true → is_fd n fd ≡ 0
  unfolding is_negative
  negative_fd (pos k) e = absurd (cc)
  negative_fd (negsuc k) e = refl

  with_pointer-Holds :
      (fd : ℤ) (q : ℕ) (s : Source os)
      → is_negative fd ≡ false
      → s.shm_pointer ≡ none
      → is_negative s.shm_fd ≡ true
      → opens n s.entries ≡ closes n s.entries + is_fd n fd
      → maps p s.entries ≡ unmaps p s.entries
      → Holds os n p (with_pointer os fd q s)
  unfolding with_pointer
  with_pointer-Holds fd q s good e neg fds mappings = elim (Bool-cases (q == map_failed)) [
    | inl failed ↦ simp failed (record {
      fds = omega (arith, negative_fd s.shm_fd neg);
      mappings = omega (arith, ap (at_pointer p) e);
      agree = subst (λ o. Agree o s.shm_fd) (sym e) neg;
    })
    | inr fine ↦ simp fine (record { fds = fds; mappings = omega arith; agree = good })
  ]

  with_fd-Holds :
      (fd : ℤ) (s : Source os)
      → s.shm_pointer ≡ none
      → is_negative s.shm_fd ≡ true
      → Holds os n p s
      → Holds os n p (with_fd os fd s)
  unfolding with_fd
  with_fd-Holds fd s e neg h = elim (Bool-cases (is_negative fd)) [
    | inl bad ↦ simp bad (record { fds = h.fds; mappings = h.mappings; agree = h.agree })
    | inr good ↦
        let (q, t) = os.mmap fd s.platform in
        simp good (
          with_pointer-Holds fd q (record s { platform = t; entries = opened fd ∷ s.entries }) good
            e neg (omega (arith, h.fds, negative_fd s.shm_fd neg))
            (omega (arith, h.mappings, ap (at_pointer p) e)))
  ]

  none_negative :
      (s : Source os) → s.shm_pointer ≡ none → Holds os n p s → is_negative s.shm_fd ≡ true
  none_negative s e h = subst (λ o. Agree o s.shm_fd) e h.agree

  pub open-Holds :
      (s : Source os)
      → s.shm_pointer ≡ none
      → Holds os n p s
      → Holds os n p (open_shared_memory os s)
  unfolding open_shared_memory
  open-Holds s e h =
      let (fd, t) = os.open_file s.platform in
      with_fd-Holds fd (record s { platform = t }) e (none_negative s e h)
        (record { fds = h.fds; mappings = h.mappings; agree = h.agree })

  -- Behind `closeSharedMemory` nothing is held.
  pub record IsClosed (s : Source os) : Type 0 where
    pub fds : opens n s.entries ≡ closes n s.entries
    pub mappings : maps p s.entries ≡ unmaps p s.entries
    pub pointer : s.shm_pointer ≡ none
    pub negative : is_negative s.shm_fd ≡ true

  unmap_pointer-mappings :
      (o : Option ℕ) (s : Source os)
      → s.shm_pointer ≡ o
      → maps p s.entries ≡ unmaps p s.entries + at_pointer p o
      → (maps p (unmap_pointer os o s).entries ≡ unmaps p (unmap_pointer os o s).entries)
        × ((unmap_pointer os o s).shm_pointer ≡ none)
        × ((unmap_pointer os o s).shm_fd ≡ s.shm_fd)
        × (opens n (unmap_pointer os o s).entries ≡ opens n s.entries)
        × (closes n (unmap_pointer os o s).entries ≡ closes n s.entries)
  unfolding unmap_pointer
  unmap_pointer-mappings none s e h = (omega arith, e, refl, refl, refl)
  unmap_pointer-mappings (some q) s e h = (omega arith, refl, refl, refl, refl)

  close_fd-IsClosed :
      (s : Source os)
      → s.shm_pointer ≡ none
      → maps p s.entries ≡ unmaps p s.entries
      → opens n s.entries ≡ closes n s.entries + is_fd n s.shm_fd
      → IsClosed (close_fd os s)
  unfolding close_fd is_negative
  close_fd-IsClosed s e mappings fds = elim (Bool-cases (is_negative s.shm_fd)) [
    | inl neg ↦ simp neg (record {
      fds = omega (arith, negative_fd s.shm_fd neg);
      mappings = mappings;
      pointer = e;
      negative = neg;
    })
    | inr good ↦
        simp good (record { fds = omega arith; mappings = mappings; pointer = e; negative = refl })
  ]

  pub close-IsClosed : (s : Source os) → Holds os n p s → IsClosed (close_shared_memory os s)
  unfolding close_shared_memory
  close-IsClosed s h =
      let (maps', e, fd, o, c) = unmap_pointer-mappings s.shm_pointer s refl h.mappings in
      close_fd-IsClosed (unmap_pointer os s.shm_pointer s) e maps'
        (o ∙ h.fds ∙ omega (arith, c, ap (is_fd n) fd))
