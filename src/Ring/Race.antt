-- ===== src/Ring/Race.antt =====
-- surface_pool.rs: what holds of the ring while several threads push.
use rtmp_vcam.Prelude.{
  ℕ, zero, suc, ◌+◌, ◌<◌, ◌≡◌, ◌≢◌, refl, ◌∙◌, subst, sym, arith, List, [], ◌∷◌, ◌++◌, length,
  length-set, replicate, All,
}
use rtmp_vcam.Ring.{Ring, ring_size, new, push}
use rtmp_vcam.Ring.Own.{
  hit, retains, releases, held, held-set, NeverOver, retains-retain, releases-retain,
  retains-release, releases-release, NeverOver-retain, NeverOver-release,
}
use rtmp_vcam.Ring.Threads.{
  Pc, idle, at_retain, at_exchange, at_release, at_id, at_timestamp, at_increment, enter, advance,
  advances, Threads, Step, enters, moves, start, Reach, here, next,
}

-- One thread that is not disturbed does what `push` says.
pub push-advances :
    (surface_id timestamp_ms surface : ℕ) (r : Ring)
    → advances 6 (enter surface_id timestamp_ms surface r) r
      ≡ (idle, push surface_id timestamp_ms surface r)
unfolding advances advance push
push-advances surface_id timestamp_ms surface r = refl

-- What a thread has retained and not yet put in a slot, or taken from a slot and not yet released.
abbrev pub carried : ℕ → Pc → ℕ
carried p idle = 0
carried p (at_retain idx i t q) = 0
carried p (at_exchange idx i t q) = hit p q
carried p (at_release idx i t old) = hit p old
carried p (at_id idx i t) = 0
carried p (at_timestamp idx t) = 0
carried p at_increment = 0

abbrev pub carried_by : ℕ → List Pc → ℕ
carried_by p [] = 0
carried_by p (pc ∷ pcs) = carried p pc + carried_by p pcs

-- The slot of a thread is one of the ring.
abbrev pub InRange : Pc → Type 0
InRange idle = Unit
InRange (at_retain idx i t q) = idx < ring_size
InRange (at_exchange idx i t q) = idx < ring_size
InRange (at_release idx i t old) = idx < ring_size
InRange (at_id idx i t) = idx < ring_size
InRange (at_timestamp idx t) = idx < ring_size
InRange at_increment = Unit

-- The calls for a surface: retained as often as released, in a slot, or in the hands of a thread;
-- and never released more often than retained.
pub record IsBalanced (p : ℕ) (r : Ring) (in_hand : ℕ) : Type 0 where
  pub slots : length r.retained_surfaces ≡ ring_size
  pub balance : retains p r.calls ≡ releases p r.calls + held p r.retained_surfaces + in_hand
  pub never_over : NeverOver p r.calls

module _ (p : ℕ) (ne : p ≢ 0) where
  -- One access of one thread, while the others hold `others`.
  advance-IsBalanced :
      (pc : Pc) (r : Ring) (others : ℕ)
      → InRange pc
      → IsBalanced p r (others + carried p pc)
      → IsBalanced p (advance pc r).1 (others + carried p (advance pc r).0)
  unfolding advance
  advance-IsBalanced idle r others h b = b
  advance-IsBalanced (at_retain idx i t q) r others h b = record {
    slots = b.slots;
    balance =
        omega (arith, b.balance, retains-retain p ne q r.calls, releases-retain p ne q r.calls);
    never_over = NeverOver-retain p ne q r.calls (omega (arith, b.balance)) b.never_over;
  }
  advance-IsBalanced (at_exchange idx i t q) r others h b = record {
    slots = length-set r.retained_surfaces idx q ∙ b.slots;
    balance =
        omega (arith, b.balance, held-set p r.retained_surfaces idx q (omega (arith, b.slots)));
    never_over = b.never_over;
  }
  advance-IsBalanced (at_release idx i t old) r others h b = record {
    slots = b.slots;
    balance =
        omega
          (arith, b.balance, retains-release p ne old r.calls, releases-release p ne old r.calls);
    never_over = NeverOver-release p ne old r.calls (omega (arith, b.balance)) b.never_over;
  }
  advance-IsBalanced (at_id idx i t) r others h b = record {
    slots = b.slots;
    balance = b.balance;
    never_over = b.never_over;
  }
  advance-IsBalanced (at_timestamp idx t) r others h b = record {
    slots = b.slots;
    balance = b.balance;
    never_over = b.never_over;
  }
  advance-IsBalanced at_increment r others h b = record {
    slots = b.slots;
    balance = b.balance;
    never_over = b.never_over;
  }

advance-InRange : (pc : Pc) (r : Ring) → InRange pc → InRange (advance pc r).0
unfolding advance
advance-InRange idle r h = tt
advance-InRange (at_retain idx i t q) r h = h
advance-InRange (at_exchange idx i t q) r h = h
advance-InRange (at_release idx i t old) r h = h
advance-InRange (at_id idx i t) r h = h
advance-InRange (at_timestamp idx t) r h = tt
advance-InRange at_increment r h = tt

carried_by-append :
    (p : ℕ) (xs ys : List Pc) → carried_by p (xs ++ ys) ≡ carried_by p xs + carried_by p ys
carried_by-append p [] ys = omega arith
carried_by-append p (x ∷ xs) ys = omega (arith, carried_by-append p xs ys)

All-replace :
    (xs ys : List Pc) (a b : Pc)
    → All InRange (xs ++ a ∷ ys)
    → (InRange a → InRange b)
    → All InRange (xs ++ b ∷ ys)
All-replace [] ys a b (h, hs) f = (f h, hs)
All-replace (x ∷ xs) ys a b (h, hs) f = (h, All-replace xs ys a b hs f)

All-at : (xs ys : List Pc) (a : Pc) → All InRange (xs ++ a ∷ ys) → InRange a
All-at [] ys a h = h.0
All-at (x ∷ xs) ys a h = All-at xs ys a h.1

-- What holds between any two steps.
pub record IsFair (s : Threads) : Type 0 where
  pub range : All InRange s.pcs
  pub balanced : (p : ℕ) → p ≢ 0 → IsBalanced p s.ring (carried_by p s.pcs)

carried_by-middle :
    (p : ℕ) (xs ys : List Pc) (pc : Pc)
    → carried_by p (xs ++ pc ∷ ys) ≡ carried_by p xs + carried_by p ys + carried p pc
carried_by-middle p xs ys pc = omega (arith, carried_by-append p xs (pc ∷ ys))

-- One thread's access, seen among the others.
move-IsFair :
    (xs ys : List Pc) (pc : Pc) (r : Ring)
    → IsFair (record { ring = r; pcs = xs ++ pc ∷ ys })
    → IsFair (record { ring = (advance pc r).1; pcs = xs ++ (advance pc r).0 ∷ ys })
move-IsFair xs ys pc r f = record {
  range = All-replace xs ys pc (advance pc r).0 f.range (advance-InRange pc r);
  balanced = λ p ne.
      subst (IsBalanced p (advance pc r).1) (sym (carried_by-middle p xs ys (advance pc r).0)) (
        advance-IsBalanced p ne pc r (carried_by p xs + carried_by p ys) (All-at xs ys pc f.range)
          (subst (IsBalanced p r) (carried_by-middle p xs ys pc) (f.balanced p ne)));
}

enter-IsFair :
    (xs ys : List Pc) (i t q : ℕ) (r : Ring)
    → IsFair (record { ring = r; pcs = xs ++ idle ∷ ys })
    → IsFair (record { ring = r; pcs = xs ++ enter i t q r ∷ ys })
enter-IsFair xs ys i t q r f = record {
  range = All-replace xs ys idle (enter i t q r) f.range (λ h. omega arith);
  balanced = λ p ne.
      subst (IsBalanced p r)
        (carried_by-middle p xs ys idle ∙ sym (carried_by-middle p xs ys (enter i t q r)))
        (f.balanced p ne);
}

Step-IsFair : {s t : Threads} → Step s t → IsFair s → IsFair t
Step-IsFair {s} (enters xs ys i ts q e e') f =
    subst IsFair (sym e') (
      enter-IsFair xs ys i ts q s.ring
        (subst (λ l. IsFair (record { ring = s.ring; pcs = l })) e f))
Step-IsFair {s} (moves xs ys pc e e') f =
    subst IsFair (sym e')
      (move-IsFair xs ys pc s.ring (subst (λ l. IsFair (record { ring = s.ring; pcs = l })) e f))

idle-range : (n : ℕ) → All InRange (replicate n idle)
idle-range zero = tt
idle-range (suc n) = (tt, idle-range n)

idle-carried : (p n : ℕ) → carried_by p (replicate n idle) ≡ 0
idle-carried p zero = refl
idle-carried p (suc n) = omega (arith, idle-carried p n)

start-IsFair : (n : ℕ) → IsFair (start n)
unfolding new
start-IsFair n = record {
  range = idle-range n;
  balanced =
      λ p ne. record { slots = refl; balance = ground (arith, idle-carried p n); never_over = tt };
}

-- Whatever way the pushes of any number of threads interleave from an empty ring on: each surface
-- has been retained as often as it has been released, stands in a slot, or is in the hands of a
-- thread between two accesses; and it was never released more often than retained before.
pub Reach-IsFair : {n : ℕ} {s : Threads} → Reach n s → IsFair s
Reach-IsFair {n} here = start-IsFair n
Reach-IsFair (next r st) = Step-IsFair st (Reach-IsFair r)
