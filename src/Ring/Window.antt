-- ===== src/Ring/Window.antt =====
-- The ring against the history of its pushes, newest first: the slots hold the last eight.
use rtmp_vcam.Prelude.{
  ℕ, zero, suc, ◌+◌, ◌-◌, ◌%◌, ◌^◌, ◌<◌, ◌≡◌, ◌≢◌, refl, ◌∙◌, none, some, List, [], ◌∷◌, arith,
  ◌==◌, if◌then◌else◌, length, get_or, length-set, get_elem?, get_or-set_self, get_or-set_ne,
  get_elem?_lt, subst,
}
use rtmp_vcam.Ring.{Ring, ring_size, new, push, latest, write_count}

-- The arguments of one push: the surface id, the timestamp and the surface.
pub record Pushed : Type 0 where
  pub surface_id : ℕ
  pub timestamp_ms : ℕ
  pub surface : ℕ

-- The ring after the pushes, the last of them first in the list.
abbrev pub pushes : List Pushed → Ring
pushes [] = new
pushes (p ∷ history) = push p.surface_id p.timestamp_ms p.surface (pushes history)

-- The slot of the push of age `k`, when `n` pushes were made.
abbrev pub slot : ℕ → ℕ → ℕ
slot n k = (n - 1 - k) % ring_size

record Shape (n : ℕ) (r : Ring) : Type 0 where
  index : r.write_index ≡ n % 2 ^ 64
  ids : length r.surface_ids ≡ ring_size
  times : length r.timestamps ≡ ring_size
  surfaces : length r.retained_surfaces ≡ ring_size

pushes-Shape : (history : List Pushed) → Shape (length history) (pushes history)
unfolding new push
pushes-Shape [] = record { index = refl; ids = refl; times = refl; surfaces = refl }
pushes-Shape (p ∷ history) =
    let s = pushes-Shape history in
    let r = pushes history in
    record {
      index = omega (arith, s.index);
      ids = length-set r.surface_ids (r.write_index % ring_size) p.surface_id ∙ s.ids;
      times = length-set r.timestamps (r.write_index % ring_size) p.timestamp_ms ∙ s.times;
      surfaces = length-set r.retained_surfaces (r.write_index % ring_size) p.surface ∙ s.surfaces;
    }

-- What stands in a slot.
pub record InSlot (r : Ring) (i : ℕ) (p : Pushed) : Type 0 where
  pub id : get_or r.surface_ids i 0 ≡ p.surface_id
  pub time : get_or r.timestamps i 0 ≡ p.timestamp_ms
  pub surface : get_or r.retained_surfaces i 0 ≡ p.surface

module _ (p : Pushed) (r : Ring) (n : ℕ) (s : Shape n r) where
  push-InSlot_self : InSlot (push p.surface_id p.timestamp_ms p.surface r) (n % ring_size) p
  unfolding push
  push-InSlot_self = rw (← same) (record {
    id =
        get_or-set_self r.surface_ids (r.write_index % ring_size) p.surface_id 0
          (omega (arith, s.ids));
    time =
        get_or-set_self r.timestamps (r.write_index % ring_size) p.timestamp_ms 0
          (omega (arith, s.times));
    surface =
        get_or-set_self r.retained_surfaces (r.write_index % ring_size) p.surface 0
          (omega (arith, s.surfaces));
  })
    where
      same : r.write_index % ring_size ≡ n % ring_size
      same = omega (arith, s.index)

  push-InSlot_ne :
      (i : ℕ) (q : Pushed)
      → n % ring_size ≢ i
      → InSlot r i q
      → InSlot (push p.surface_id p.timestamp_ms p.surface r) i q
  unfolding push
  push-InSlot_ne i q ne h = record {
    id = get_or-set_ne r.surface_ids (r.write_index % ring_size) i p.surface_id 0 other ∙ h.id;
    time = get_or-set_ne r.timestamps (r.write_index % ring_size) i p.timestamp_ms 0 other ∙ h.time;
    surface =
        get_or-set_ne r.retained_surfaces (r.write_index % ring_size) i p.surface 0 other
        ∙ h.surface;
  }
    where
      other : r.write_index % ring_size ≢ i
      other = omega (arith, s.index, ne)

-- After any pushes, however many, the push of age `k` below eight stands in its slot with its id,
-- its timestamp and its surface: nothing newer than eight pushes is overwritten, also where the
-- 64-bit write index has wrapped.
pub pushes-InSlot :
    (history : List Pushed) (k : ℕ) (p : Pushed)
    → k < ring_size
    → get_elem? history k ≡ some p
    → InSlot (pushes history) (slot (length history) k) p
pushes-InSlot [] k p h e = cc
pushes-InSlot (q ∷ history) zero p h e =
    let same : q ≡ p = cc e in
    subst (InSlot (pushes (q ∷ history)) (slot (length (q ∷ history)) 0)) same
      (rw (← at) (push-InSlot_self q (pushes history) (length history) (pushes-Shape history)))
  where
    at : length history % ring_size ≡ slot (length (q ∷ history)) 0
    at = omega arith
pushes-InSlot (q ∷ history) (suc k) p h e = rw (← at) (
    push-InSlot_ne q (pushes history) (length history) (pushes-Shape history)
      (slot (length history) k) p (omega (arith, old)) (pushes-InSlot history k p (omega arith) e))
  where
    old : k < length history
    old = get_elem?_lt history k p e

    at : slot (length history) k ≡ slot (length (q ∷ history)) (suc k)
    at = omega arith

latest-InSlot :
    (r : Ring) (w i : ℕ) (p : Pushed)
    → r.write_index ≡ w
    → (w ≢ 0 → (w - 1) % ring_size ≡ i)
    → InSlot r i p
    → latest r ≡ (
        if w == 0
        then none
        else if p.surface_id == 0
        then none
        else some (p.surface_id, p.timestamp_ms))
unfolding latest
latest-InSlot r zero i p e at h = simp e refl
latest-InSlot r (suc w) i p e at h = simp (e, at (omega arith), h.id, h.time) refl

-- A reader gets the id and the timestamp of the last push, unless that id is 0 or the 64-bit write
-- index is 0, which after a push means that it has wrapped: then it gets nothing.
pub latest-pushes :
    (p : Pushed) (history : List Pushed)
    → latest (pushes (p ∷ history)) ≡ (
        if (length history + 1) % 2 ^ 64 == 0
        then none
        else if p.surface_id == 0
        then none
        else some (p.surface_id, p.timestamp_ms))
latest-pushes p history =
    latest-InSlot (pushes (p ∷ history)) ((length history + 1) % 2 ^ 64)
      (length history % ring_size) p (omega (arith, (pushes-Shape (p ∷ history)).index))
      (λ ne. omega arith)
      (push-InSlot_self p (pushes history) (length history) (pushes-Shape history))

-- The write count is the number of pushes, modulo 2^64.
pub write_count-pushes :
    (history : List Pushed) → write_count (pushes history) ≡ length history % 2 ^ 64
unfolding write_count
write_count-pushes history = (pushes-Shape history).index
