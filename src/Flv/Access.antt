-- ===== src/Flv/Access.antt =====
-- Indexing and slicing at a position, by what is left of the list there.
use rtmp_vcam.Prelude.{
  ℕ, ◌+◌, ◌-◌, ◌≤◌, ◌<◌, ◌≡◌, ap, ◌∙◌, some, List, ◌∷◌, ◌++◌, arith, length, get_elem?, take, drop,
  get_elem?-drop, get_elem?-some, take-append, ok,
}
use rtmp_vcam.Flv.{index, slice, slice_from}

pub index_of_drop : (xs : List ℕ) (i x : ℕ) (r : List ℕ) → drop i xs ≡ x ∷ r → index xs i ≡ ok x
unfolding index
index_of_drop xs i x r e = ground (arith, get_elem?-drop xs i x r e)

pub index_in_range : (xs : List ℕ) (i : ℕ) → i < length xs → (x : ℕ) × (index xs i ≡ ok x)
unfolding index
index_in_range xs i h = let (x, e) = get_elem?-some xs i h in (x, ground arith)

pub index_inv : (xs : List ℕ) (i x : ℕ) → index xs i ≡ ok x → get_elem? xs i ≡ some x
unfolding index
index_inv xs i x e = ground arith

pub slice_in_range :
    (xs : List ℕ) (a b : ℕ) → a ≤ b → b ≤ length xs → slice xs a b ≡ ok (take (b - a) (drop a xs))
unfolding slice
slice_in_range xs a b p q = ground arith

pub slice_from_in_range : (xs : List ℕ) (a : ℕ) → a ≤ length xs → slice_from xs a ≡ ok (drop a xs)
unfolding slice_from
slice_from_in_range xs a p = ground arith

pub slice_of_drop :
    (xs ys r : List ℕ) (a b : ℕ)
    → drop a xs ≡ ys ++ r
    → b ≡ a + length ys
    → b ≤ length xs
    → slice xs a b ≡ ok ys
slice_of_drop xs ys r a b e eb h =
    slice_in_range xs a b (omega arith) h
    ∙ ap ok (ap (λ k. take k (drop a xs)) width ∙ ap (take (length ys)) e ∙ take-append ys r)
  where
    width : b - a ≡ length ys
    width = omega arith
