-- ===== src/Ring/Handles.antt =====
-- The handles to a ring: `clone_ref`, pushes through a handle, and handles that go out of scope.
use rtmp_vcam.Prelude.{ℕ, ◌<◌, ◌≡◌, ◌≢◌, arith, ◌==◌, All, ◌⊎◌, inl, inr, Bool-cases, ==_iff}
use rtmp_vcam.Ring.{Ring, new, push, Shared, clone_ref, drop_handle}
use rtmp_vcam.Ring.Own.{
  Owns, new-Owns, push-Owns, drop_inner_balanced, retains, releases, NeverOver,
}

-- What a holder of a handle may do. Nobody holds one when there are none.
pub data Step : Shared → Shared → Type 0 where
  pushed :
      (s : Shared) (surface_id timestamp_ms surface : ℕ)
      → 0 < s.handles
      → Step s (record s { inner = push surface_id timestamp_ms surface s.inner })
  cloned : (s : Shared) → 0 < s.handles → Step s (clone_ref s)
  dropped : (s : Shared) → 0 < s.handles → Step s (drop_handle s)

pub data Reach (s : Shared) : Shared → Type 0 where
  here : Reach s s
  next : {t u : Shared} → Reach s t → Step t u → Reach s u

-- Every call of CFRetain has been matched by one of CFRelease, and no slot holds a surface.
pub record IsReleased (r : Ring) : Type 0 where
  pub balance : (p : ℕ) → p ≢ 0 → retains p r.calls ≡ releases p r.calls
  pub never_over : (p : ℕ) → p ≢ 0 → NeverOver p r.calls
  pub empty : All (λ p. p ≡ 0) r.retained_surfaces

-- The ring owns its surfaces while there is a handle, and has released them when there is none.
abbrev pub IsSafe : Shared → Type 0
IsSafe s = ((0 < s.handles) × Owns s.inner) ⊎ ((s.handles ≡ 0) × IsReleased s.inner)

owns : {s : Shared} → IsSafe s → 0 < s.handles → Owns s.inner
owns (inl h) pos = h.1
owns (inr h) pos = absurd (omega arith)

drop-IsSafe : (s : Shared) → 0 < s.handles → Owns s.inner → IsSafe (drop_handle s)
unfolding drop_handle
drop-IsSafe s pos o = elim (Bool-cases (s.handles == 1)) [
  | inl last ↦
      let (calls, empty) = drop_inner_balanced s.inner o in
      let one : s.handles ≡ 1 = (==_iff s.handles 1).0 last in
      rw last (
        inr (
          omega arith,
          record {
            balance = λ p ne. (calls p ne).0;
            never_over = λ p ne. (calls p ne).1;
            empty = empty;
          },
        ))
  | inr more ↦ rw more (inl (ground arith, o))
]

Step-IsSafe : {s t : Shared} → Step s t → IsSafe s → IsSafe t
Step-IsSafe (pushed s i t p pos) h = inl (pos, push-Owns i t p s.inner (owns h pos))
Step-IsSafe (cloned s pos) h = inl (unfold clone_ref in (omega arith, owns h pos))
Step-IsSafe (dropped s pos) h = drop-IsSafe s pos (owns h pos)

-- From a new ring with one handle, whatever pushes, clones and drops follow: while a handle is left
-- the ring owns exactly the surfaces in its slots, and after the last handle is gone each surface
-- was released as often as it was retained, never more often on the way.
pub Reach-IsSafe : {s : Shared} → Reach (record { inner = new; handles = 1 }) s → IsSafe s
Reach-IsSafe here = inl (omega arith, new-Owns)
Reach-IsSafe (next r step) = Step-IsSafe step (Reach-IsSafe r)
