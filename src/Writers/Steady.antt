-- ===== src/Writers/Steady.antt =====
-- decoder.rs: any interleaving of the accesses of several callbacks.
use rtmp_vcam.Prelude.{
  ℕ, zero, suc, ◌+◌, ◌≡◌, refl, sym, ◌∙◌, subst, arith, List, [], ◌∷◌, ◌++◌, Result, ok, All,
  replicate,
}
use rtmp_vcam.Frame.{Bytes, PixelBuffer}
use rtmp_vcam.Frame.Callback.{IsNv12, Fits}
use rtmp_vcam.Writers.{Pc, idle, enter, advance, Writers, enters, moves, Reach, here, next}
use rtmp_vcam.Writers.Header.{IsProper, ends, HasHeader, Advances, advance_lem}

All-replace :
    (xs ys : List Pc) (a b : Pc)
    → All IsProper (xs ++ a ∷ ys)
    → IsProper b
    → All IsProper (xs ++ b ∷ ys)
All-replace [] ys a b (h, hs) q = (q, hs)
All-replace (x ∷ xs) ys a b (h, hs) q = (h, All-replace xs ys a b hs q)

All-at : (xs ys : List Pc) (a : Pc) → All IsProper (xs ++ a ∷ ys) → IsProper a
All-at [] ys a h = h.0
All-at (x ∷ xs) ys a h = All-at xs ys a h.1

-- How many callbacks have ended.
abbrev pub completed : {n : ℕ} {s : Writers} → Reach n s → ℕ
completed here = 0
completed (next r (enters xs ys image fits nv12 e e')) = completed r
completed (next r (moves xs ys pc pc' shm e run e')) = completed r + ends pc pc'

-- The header after `k` frames, and no access that would fault.
pub record IsSteady (k : ℕ) (s : Writers) : Type 0 where
  pub header : HasHeader k s.shm
  pub runs : All (λ pc. Advances k pc s.shm) s.pcs

record IsSound (k : ℕ) (s : Writers) : Type 0 where
  header : HasHeader k s.shm
  proper : All IsProper s.pcs

ok_injective : {E A : Type 0} {x y : A} → ◌≡◌ {A = Result E A} (ok x) (ok y) → x ≡ y
ok_injective e = cc

entered-IsSound :
    (k : ℕ) (xs ys : List Pc) (image : PixelBuffer) (shm : Bytes)
    → Fits image
    → IsNv12 image
    → IsSound k (record { shm = shm; pcs = xs ++ idle ∷ ys })
    → IsSound k (record { shm = shm; pcs = xs ++ enter image shm ∷ ys })
entered-IsSound k xs ys image shm fits nv12 s = record {
  header = s.header;
  proper = All-replace xs ys idle (enter image shm) s.proper (fits, nv12);
}

moved-IsSound :
    (k : ℕ) (xs ys : List Pc) (pc pc' : Pc) (shm shm' : Bytes)
    → advance pc shm ≡ ok (pc', shm')
    → IsSound k (record { shm = shm; pcs = xs ++ pc ∷ ys })
    → IsSound (k + ends pc pc') (record { shm = shm'; pcs = xs ++ pc' ∷ ys })
moved-IsSound k xs ys pc pc' shm shm' run s =
    let a = advance_lem k pc shm (All-at xs ys pc s.proper) s.header in
    let same : (a.pc', a.after) ≡ (pc', shm') = ok_injective (sym a.result ∙ run) in
    record {
      header = subst (λ (u : Pc × Bytes). HasHeader (k + ends pc u.0) u.1) same a.header;
      proper =
          All-replace xs ys pc pc' s.proper
            (subst (λ (u : Pc × Bytes). IsProper u.0) same a.proper);
    }

idle-IsProper : (n : ℕ) → All IsProper (replicate n idle)
idle-IsProper zero = tt
idle-IsProper (suc n) = (tt, idle-IsProper n)

Reach-IsSound : {n : ℕ} {s : Writers} (r : Reach n s) → IsSound (completed r) s
Reach-IsSound {n} here = record {
  header = record { index = refl; width = omega arith; height = omega arith };
  proper = idle-IsProper n;
}
Reach-IsSound (next {s} r (enters xs ys image fits nv12 e e')) =
    subst (IsSound (completed r)) (sym e') (
      entered-IsSound (completed r) xs ys image s.shm fits nv12
        (subst (λ l. IsSound (completed r) (record { shm = s.shm; pcs = l })) e (Reach-IsSound r)))
Reach-IsSound (next {s} r (moves xs ys pc pc' shm e run e')) =
    subst (IsSound (completed r + ends pc pc')) (sym e') (
      moved-IsSound (completed r) xs ys pc pc' s.shm shm run
        (subst (λ l. IsSound (completed r) (record { shm = s.shm; pcs = l })) e (Reach-IsSound r)))

All-Advances :
    (k : ℕ) (shm : Bytes) (pcs : List Pc)
    → HasHeader k shm
    → All IsProper pcs
    → All (λ pc. Advances k pc shm) pcs
All-Advances k shm [] h p = tt
All-Advances k shm (pc ∷ pcs) h (p, ps) = (advance_lem k pc shm p h, All-Advances k shm pcs h ps)

-- However the accesses of any number of callbacks interleave, for frames in the NV12 layout of
-- accepted sizes: no callback's next access faults, the write index is the number of callbacks that
-- have ended, modulo 2^64 (of the accesses after which a thread that ran a callback runs none), and
-- the dimensions in the header are of accepted size.
pub Reach-IsSteady : {n : ℕ} {s : Writers} (r : Reach n s) → IsSteady (completed r) s
Reach-IsSteady {s} r =
    let sound = Reach-IsSound r in
    record {
      header = sound.header;
      runs = All-Advances (completed r) s.shm s.pcs sound.header sound.proper;
    }
