-- ===== src/Ring/Own.antt =====
-- The ring owns the surfaces in its slots: its calls of CFRetain and CFRelease balance.
use rtmp_vcam.Prelude.{
  ℕ, zero, suc, ◌+◌, ◌%◌, ◌≤◌, ◌<◌, ◌≡◌, ◌≢◌, refl, ap, ◌∙◌, List, [], ◌∷◌, arith, ◌==◌,
  if◌then◌else◌, length, get_or, set, length-set, All,
}
use rtmp_vcam.Ring.{
  Ring, CfCall, retain, release, ring_size, new, push, release_unless_null, retain_unless_null,
  release_all, clear_all, drop_inner,
}

-- 1 if the numbers agree.
abbrev pub hit : ℕ → ℕ → ℕ
hit p q = if p == q then 1 else 0

abbrev pub retains : ℕ → List CfCall → ℕ
retains p [] = 0
retains p (retain q ∷ calls) = hit p q + retains p calls
retains p (release q ∷ calls) = retains p calls

abbrev pub releases : ℕ → List CfCall → ℕ
releases p [] = 0
releases p (retain q ∷ calls) = releases p calls
releases p (release q ∷ calls) = hit p q + releases p calls

-- How many slots hold `p`.
abbrev pub held : ℕ → List ℕ → ℕ
held p [] = 0
held p (q ∷ slots) = hit p q + held p slots

pub held-set :
    (p : ℕ) (slots : List ℕ) (i v : ℕ)
    → i < length slots
    → held p (set slots i v) + hit p (get_or slots i 0) ≡ held p slots + hit p v
held-set p [] i v h = absurd (omega arith)
held-set p (q ∷ slots) zero v h = omega arith
held-set p (q ∷ slots) (suc i) v h = omega (arith, held-set p slots i v (omega arith))

-- At no point of the calls was `p` released more often than it had been retained.
abbrev pub NeverOver : ℕ → List CfCall → Type 0
NeverOver p [] = Unit
NeverOver p (c ∷ calls) = (releases p (c ∷ calls) ≤ retains p (c ∷ calls)) × NeverOver p calls

-- The ring has retained each surface once for each slot that holds it, and has never released what
-- it had not retained.
pub record Owns (r : Ring) : Type 0 where
  pub slots : length r.retained_surfaces ≡ ring_size
  pub balance :
      (p : ℕ) → p ≢ 0 → retains p r.calls ≡ releases p r.calls + held p r.retained_surfaces
  pub never_over : (p : ℕ) → p ≢ 0 → NeverOver p r.calls

module _ (p : ℕ) (ne : p ≢ 0) where
  pub retains-retain :
      (q : ℕ) (calls : List CfCall)
      → retains p (retain_unless_null q calls) ≡ hit p q + retains p calls
  retains-retain q calls = ground arith

  pub releases-retain :
      (q : ℕ) (calls : List CfCall) → releases p (retain_unless_null q calls) ≡ releases p calls
  releases-retain q calls = ground arith

  pub retains-release :
      (q : ℕ) (calls : List CfCall) → retains p (release_unless_null q calls) ≡ retains p calls
  retains-release q calls = ground arith

  pub releases-release :
      (q : ℕ) (calls : List CfCall)
      → releases p (release_unless_null q calls) ≡ hit p q + releases p calls
  releases-release q calls = ground arith

  pub NeverOver-retain :
      (q : ℕ) (calls : List CfCall)
      → releases p calls ≤ retains p calls
      → NeverOver p calls
      → NeverOver p (retain_unless_null q calls)
  NeverOver-retain q calls le h = ground arith

  pub NeverOver-release :
      (q : ℕ) (calls : List CfCall)
      → hit p q + releases p calls ≤ retains p calls
      → NeverOver p calls
      → NeverOver p (release_unless_null q calls)
  NeverOver-release q calls le h = ground arith

  retains-release_all :
      (ps : List ℕ) (calls : List CfCall) → retains p (release_all ps calls) ≡ retains p calls
  unfolding release_all
  retains-release_all [] calls = refl
  retains-release_all (q ∷ ps) calls =
      retains-release_all ps (release_unless_null q calls) ∙ retains-release q calls

  releases-release_all :
      (ps : List ℕ) (calls : List CfCall)
      → releases p (release_all ps calls) ≡ releases p calls + held p ps
  unfolding release_all
  releases-release_all [] calls = omega arith
  releases-release_all (q ∷ ps) calls =
      omega (arith, releases-release_all ps (release_unless_null q calls), releases-release q calls)

  NeverOver-release_all :
      (ps : List ℕ) (calls : List CfCall)
      → releases p calls + held p ps ≤ retains p calls
      → NeverOver p calls
      → NeverOver p (release_all ps calls)
  unfolding release_all
  NeverOver-release_all [] calls le h = h
  NeverOver-release_all (q ∷ ps) calls le h =
      NeverOver-release_all ps (release_unless_null q calls)
        (omega (arith, releases-release q calls, retains-release q calls))
        (NeverOver-release q calls (omega arith) h)

  held-clear_all : (ps : List ℕ) → held p (clear_all ps) ≡ 0
  unfolding clear_all
  held-clear_all [] = refl
  held-clear_all (q ∷ ps) = ground (arith, held-clear_all ps)

length-clear_all : (ps : List ℕ) → length (clear_all ps) ≡ length ps
unfolding clear_all
length-clear_all [] = refl
length-clear_all (q ∷ ps) = ap suc (length-clear_all ps)

All-zero-clear_all : (ps : List ℕ) → All (λ p. p ≡ 0) (clear_all ps)
unfolding clear_all
All-zero-clear_all [] = tt
All-zero-clear_all (q ∷ ps) = (ground arith, All-zero-clear_all ps)

-- The empty ring owns nothing and has called nothing.
pub new-Owns : Owns new
unfolding new
new-Owns = record { slots = refl; balance = λ p ne. ground arith; never_over = λ p ne. tt }

-- A push keeps the ownership: it retains the new surface before it releases the one whose slot it
-- takes, so this holds also where the two are one surface, and where either is null.
pub push-Owns :
    (surface_id timestamp_ms surface : ℕ) (r : Ring)
    → Owns r
    → Owns (push surface_id timestamp_ms surface r)
unfolding push
push-Owns surface_id timestamp_ms surface r o = record {
  slots = length-set r.retained_surfaces (r.write_index % ring_size) surface ∙ o.slots;
  balance = λ p ne. omega (
    arith,
    o.balance p ne,
    held-set p r.retained_surfaces (r.write_index % ring_size) surface in_range,
    retains-release p ne old kept,
    releases-release p ne old kept,
    retains-retain p ne surface r.calls,
    releases-retain p ne surface r.calls,
  );
  never_over = λ p ne.
      NeverOver-release p ne old kept
        (omega (
          arith,
          o.balance p ne,
          held-set p r.retained_surfaces (r.write_index % ring_size) surface in_range,
          retains-retain p ne surface r.calls,
          releases-retain p ne surface r.calls,
        ))
        (NeverOver-retain p ne surface r.calls (omega (arith, o.balance p ne)) (o.never_over p ne));
}
  where
    old : ℕ
    old = get_or r.retained_surfaces (r.write_index % ring_size) 0

    kept : List CfCall
    kept = retain_unless_null surface r.calls

    in_range : r.write_index % ring_size < length r.retained_surfaces
    in_range = omega (arith, o.slots)

-- Dropping the inner ring releases exactly what it still held: each surface has then been released
-- as often as it was retained, never more often on the way, and no slot holds a surface any more.
pub drop_inner_balanced :
    (r : Ring)
    → Owns r
    → ((p : ℕ)
        → p ≢ 0
        → (retains p (drop_inner r).calls ≡ releases p (drop_inner r).calls)
          × NeverOver p (drop_inner r).calls)
      × All (λ p. p ≡ 0) (drop_inner r).retained_surfaces
unfolding drop_inner
drop_inner_balanced r o = (
  λ p ne. (
    omega (
      arith,
      o.balance p ne,
      retains-release_all p ne r.retained_surfaces r.calls,
      releases-release_all p ne r.retained_surfaces r.calls,
    ),
    NeverOver-release_all p ne r.retained_surfaces r.calls (omega (arith, o.balance p ne))
        (o.never_over p ne),
  ),
  All-zero-clear_all r.retained_surfaces,
)
