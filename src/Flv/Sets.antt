-- ===== src/Flv/Sets.antt =====
-- The loop over the parameter sets of flv.rs, against their encoding.
use rtmp_vcam.Prelude.{
  ℕ, zero, suc, ◌+◌, ◌/◌, ◌%◌, ◌≤◌, ◌<◌, ◌≡◌, refl, sym, ap, subst, ◌∙◌, ◌⊎◌, inl, inr, Bool-cases,
  false, if◌then◌else◌, ltb-false, ltb-false_inv, List, [], ◌∷◌, ◌++◌, append_assoc, append-nil,
  arith, ltb, length, take, drop, drop-append, drop-cons, drop-drop, take-append-drop, take-append,
  length-take, length-drop, length-append, AreBytes, AreBytes-drop, from_be_bytes, ok, err,
}
use rtmp_vcam.Flv.{reject, index, slice, read_set, read_sets}
use rtmp_vcam.Flv.Format.{encode_set, encode_sets}
use rtmp_vcam.Flv.Access.{index_of_drop, index_in_range, index_inv, slice_in_range}

-- A round, by the two bytes of the length that it finds.
read_set_by_length :
    (config : List ℕ) (pos : ℕ) (sets : List (List ℕ)) (hi lo : ℕ)
    → pos + 2 ≤ length config
    → index config pos ≡ ok hi
    → index config (pos + 1) ≡ ok lo
    → read_set config pos sets ≡ (
        if ltb (length config) (pos + 2 + from_be_bytes hi lo)
        then err reject
        else ok (
          sets ++ take (from_be_bytes hi lo) (drop (pos + 2) config) ∷ [],
          pos + 2 + from_be_bytes hi lo,
        ))
unfolding read_set
read_set_by_length config pos sets hi lo h eh el =
    rw (ltb-false (length config) (pos + 2) h, eh, el)
      (elim (Bool-cases (ltb (length config) (pos + 2 + from_be_bytes hi lo))) [
        | inl long ↦ rw long refl
        | inr fits ↦ rw (fits, in_range fits) refl
      ])
  where
    in_range :
        ltb (length config) (pos + 2 + from_be_bytes hi lo) ≡ false
        → slice config (pos + 2) (pos + 2 + from_be_bytes hi lo)
          ≡ ok (take (from_be_bytes hi lo) (drop (pos + 2) config))
    in_range fits =
        slice_in_range config (pos + 2) (pos + 2 + from_be_bytes hi lo) (omega arith)
          (ltb-false_inv _ _ fits)
        ∙ ap (λ k. ok (take k (drop (pos + 2) config))) (omega arith)

-- What a successful round has read: `s` stands at `pos` behind its length.
pub record HasRead (config : List ℕ) (pos : ℕ) (sets : List (List ℕ)) : Type 0 where
  pub s : List ℕ
  pub here : drop pos config ≡ encode_set s ++ drop (pos + 2 + length s) config
  pub within : pos + 2 + length s ≤ length config
  pub result : read_set config pos sets ≡ ok (sets ++ s ∷ [], pos + 2 + length s)

-- An encoded set at `pos` is read whole.
pub read_set_complete :
    (config : List ℕ) (pos : ℕ) (sets : List (List ℕ)) (s rest : List ℕ)
    → drop pos config ≡ encode_set s ++ rest
    → (read_set config pos sets ≡ ok (sets ++ s ∷ [], pos + 2 + length s))
      × (drop (pos + 2 + length s) config ≡ rest)
read_set_complete config pos sets s rest e = (
  read_set_by_length config pos sets (length s / 256) (length s % 256) (omega (arith, room))
        (index_of_drop config pos (length s / 256) (length s % 256 ∷ (s ++ rest)) e)
        (index_of_drop config (pos + 1) (length s % 256) (s ++ rest) at_1)
      ∙ rw (two_bytes, ltb-false (length config) (pos + 2 + length s) room, at_2, take-append) refl,
  sym (drop-drop (length s) (pos + 2) config) ∙ ap (drop (length s)) at_2 ∙ drop-append s rest,
)
  where
    at_1 : drop (pos + 1) config ≡ length s % 256 ∷ (s ++ rest)
    at_1 = sym (drop-drop 1 pos config) ∙ ap (drop 1) e

    at_2 : drop (pos + 2) config ≡ s ++ rest
    at_2 = sym (drop-drop 2 pos config) ∙ ap (drop 2) e

    room : pos + 2 + length s ≤ length config
    room = omega (arith, length-drop pos config, ap length e, length-append s rest)

    two_bytes : from_be_bytes (length s / 256) (length s % 256) ≡ length s
    two_bytes = omega arith

-- The bytes at `pos` and behind it, from what `config[pos]` and `config[pos + 1]` are.
two_at :
    (config : List ℕ) (pos : ℕ) (hi lo : ℕ)
    → index config pos ≡ ok hi
    → index config (pos + 1) ≡ ok lo
    → drop pos config ≡ hi ∷ lo ∷ drop (pos + 2) config
two_at config pos hi lo eh el =
    drop-cons config pos hi (index_inv config pos hi eh)
    ∙ ap (λ r. hi ∷ r)
        (ap (λ k. drop k config) {x = suc pos} (omega arith)
          ∙ drop-cons config (pos + 1) lo (index_inv config (pos + 1) lo el)
          ∙ ap (λ k. lo ∷ drop k config) {x = suc (pos + 1)} (omega arith))

module _ (config : List ℕ) (pos : ℕ) (sets : List (List ℕ)) (bytes : AreBytes config) (hi lo : ℕ)
    (room : pos + 2 ≤ length config) (eh : index config pos ≡ ok hi)
    (el : index config (pos + 1) ≡ ok lo) where
  -- The set that stands behind its length fits.
  read_set_found : pos + 2 + from_be_bytes hi lo ≤ length config → HasRead config pos sets
  read_set_found fits = record {
    s = s;
    here = two_at config pos hi lo eh el ∙ split;
    within = omega (arith, width);
    result =
        read_set_by_length config pos sets hi lo room eh el ∙ rw (ltb-false _ _ fits, width) refl;
  }
    where
      s : List ℕ
      s = take (from_be_bytes hi lo) (drop (pos + 2) config)

      width : length s ≡ from_be_bytes hi lo
      width = omega (
        arith,
        length-take (from_be_bytes hi lo) (drop (pos + 2) config),
        length-drop (pos + 2) config,
      )

      small : lo < 256
      small = (subst AreBytes (two_at config pos hi lo eh el) (AreBytes-drop pos config bytes)).1.0

      behind : drop (pos + 2) config ≡ s ++ drop (pos + 2 + length s) config
      behind =
          sym (take-append-drop (from_be_bytes hi lo) (drop (pos + 2) config))
          ∙ ap (λ r. s ++ r)
              (drop-drop (from_be_bytes hi lo) (pos + 2) config
                ∙ ap (λ k. drop (pos + 2 + k) config) (sym width))

      hi_eq : hi ≡ length s / 256
      hi_eq = omega (arith, width, small)

      lo_eq : lo ≡ length s % 256
      lo_eq = omega (arith, width, small)

      split : hi ∷ lo ∷ drop (pos + 2) config ≡ encode_set s ++ drop (pos + 2 + length s) config
      split = cc (hi_eq, lo_eq, behind)

  read_set_decide : (read_set config pos sets ≡ err reject) ⊎ HasRead config pos sets
  read_set_decide = elim (Bool-cases (ltb (length config) (pos + 2 + from_be_bytes hi lo))) [
    | inl long ↦ inl (read_set_by_length config pos sets hi lo room eh el ∙ rw long refl)
    | inr fits ↦ inr (read_set_found (ltb-false_inv _ _ fits))
  ]

-- A round of the loop over bytes rejects, or has read an encoded set; it never panics.
pub read_set_cases :
    (config : List ℕ) (pos : ℕ) (sets : List (List ℕ))
    → AreBytes config
    → (read_set config pos sets ≡ err reject) ⊎ HasRead config pos sets
unfolding read_set
read_set_cases config pos sets bytes = elim (Bool-cases (ltb (length config) (pos + 2))) [
  | inl short ↦ inl (rw short refl)
  | inr room ↦ by_length (ltb-false_inv _ _ room)
]
  where
    by_length :
        pos + 2 ≤ length config → (read_set config pos sets ≡ err reject) ⊎ HasRead config pos sets
    by_length room =
        let (hi, eh) = index_in_range config pos (omega arith) in
        let (lo, el) = index_in_range config (pos + 1) (omega arith) in
        read_set_decide config pos sets bytes hi lo room eh el

-- What the whole loop has read.
pub record HasReadAll (config : List ℕ) (n pos : ℕ) (sets : List (List ℕ)) : Type 0 where
  pub read : List (List ℕ)
  pub end : ℕ
  pub count : length read ≡ n
  pub here : drop pos config ≡ encode_sets read ++ drop end config
  pub result : read_sets n config pos sets ≡ ok (sets ++ read, end)

-- The loop reads encoded sets whole.
pub read_sets_complete :
    (ss : List (List ℕ)) (config : List ℕ) (pos : ℕ) (sets : List (List ℕ)) (rest : List ℕ)
    → drop pos config ≡ encode_sets ss ++ rest
    → (end : ℕ) × (read_sets (length ss) config pos sets ≡ ok (sets ++ ss, end))
      × (drop end config ≡ rest)
unfolding read_sets
read_sets_complete [] config pos sets rest e = (pos, rw append-nil refl, e)
read_sets_complete (s ∷ ss) config pos sets rest e =
    let (first, left) =
      read_set_complete config pos sets s (encode_sets ss ++ rest)
        (e ∙ append_assoc (encode_set s) (encode_sets ss) rest) in
    let (end, result, behind) =
      read_sets_complete ss config (pos + 2 + length s) (sets ++ s ∷ []) rest left in
    (end, rw first (result ∙ rw append_assoc refl), behind)

-- The loop over bytes rejects, or has read as many sets as it was asked for; it never panics.
pub read_sets_cases :
    (n : ℕ) (config : List ℕ) (pos : ℕ) (sets : List (List ℕ))
    → AreBytes config
    → (read_sets n config pos sets ≡ err reject) ⊎ HasReadAll config n pos sets
unfolding read_sets
read_sets_cases zero config pos sets bytes =
    inr (record { read = []; end = pos; count = refl; here = refl; result = rw append-nil refl })
read_sets_cases (suc n) config pos sets bytes = elim (read_set_cases config pos sets bytes) [
  | inl e ↦ inl (rw e refl)
  | inr h ↦ elim (read_sets_cases n config (pos + 2 + length h.s) (sets ++ h.s ∷ []) bytes) [
    | inl e ↦ inl (rw h.result e)
    | inr t ↦ inr (record {
      read = h.s ∷ t.read;
      end = t.end;
      count = ap suc t.count;
      here =
          h.here ∙ ap (λ r. encode_set h.s ++ r) t.here ∙ sym (append_assoc (encode_set h.s) _ _);
      result = rw h.result (t.result ∙ rw append_assoc refl);
    })
  ]
]
