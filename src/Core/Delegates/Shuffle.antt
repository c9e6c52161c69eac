-- ===== src/Core/Delegates/Shuffle.antt =====
-- The shuffle of `generateDelegateList`: it ends, and it only reorders.
use gny.Prelude.{
  ℕ, zero, suc, ◌+◌, ◌%◌, ◌≤◌, String, ◌≡◌, refl, sym, ap, ◌∙◌, inl, inr, Bool, true, false, some,
  List, [], ◌∷◌, arith, ltb, ◌==◌, nat_eq, string_eq, option_eq, Bool-cases, Option-cases, length,
  get_elem?, set, length-set,
}
use gny.Prelude.Int.{int_eq}
use mathlib.Core.Path.{subst}
use gny.Utils.Slots.{calculate_round}
use gny.Base.Platform.{Platform}
use gny.Core.Delegates.{swap, byte, inner, outer, generate_delegate_list}

abbrev tally : Bool → ℕ
tally true = 1
tally false = 0

-- How often a key stands in a list.
abbrev pub occurrences : String → List String → ℕ
occurrences key [] = 0
occurrences key (x ∷ xs) = tally (x == key) + occurrences key xs

module _ (key : String) where
  occurrences-set :
      (xs : List String) (i : ℕ) (old new : String)
      → get_elem? xs i ≡ some old
      → occurrences key (set xs i new) + tally (old == key)
        ≡ occurrences key xs + tally (new == key)
  occurrences-set [] i old new h = ground arith
  occurrences-set (x ∷ xs) zero old new h = ground arith
  occurrences-set (x ∷ xs) (suc i) old new h = omega (arith, occurrences-set xs i old new h)

  get_elem?-set_same :
      (xs : List String) (i j : ℕ) (a : String)
      → get_elem? xs j ≡ some a
      → get_elem? (set xs i a) j ≡ some a
  get_elem?-set_same [] i j a h = h
  get_elem?-set_same (x ∷ xs) zero zero a h = refl
  get_elem?-set_same (x ∷ xs) zero (suc j) a h = h
  get_elem?-set_same (x ∷ xs) (suc i) zero a h = h
  get_elem?-set_same (x ∷ xs) (suc i) (suc j) a h = get_elem?-set_same xs i j a h

  occurrences-swap :
      (xs : List String) (i j : ℕ) → occurrences key (swap xs i j) ≡ occurrences key xs
  unfolding swap
  occurrences-swap xs i j = elim (Option-cases (get_elem? xs i)) [
    | inl e ↦ ground (arith, e)
    | inr (b, e) ↦ elim (Option-cases (get_elem? xs j)) [
      | inl e' ↦ ground (arith, e, e')
      | inr (a, e') ↦ ground (
        arith,
        e,
        e',
        occurrences-set xs i b a e,
        occurrences-set (set xs i a) j a b (get_elem?-set_same xs i j a e'),
      )
    ]
  ]

length-swap : (xs : List String) (i j : ℕ) → length (swap xs i j) ≡ length xs
unfolding swap
length-swap xs i j = elim (Option-cases (get_elem? xs i)) [
  | inl e ↦ ground (arith, e)
  | inr (b, e) ↦ elim (Option-cases (get_elem? xs j)) [
    | inl e' ↦ ground (arith, e, e')
    | inr (a, e') ↦ ground (arith, e, e', length-set xs i a, length-set (set xs i a) j b)
  ]
]

-- What a run of the inner loop guarantees: the index does not go back, and the list is a reordering.
abbrev Reordered : ℕ → List String → ℕ × List String → Type 0
Reordered i xs (i', xs') =
    (i ≤ i')
    × (length xs' ≡ length xs)
    × ((key : String) → occurrences key xs' ≡ occurrences key xs)

inner-Reordered :
    (rounds x i : ℕ) (seed : List ℕ) (xs : List String) → Reordered i xs (inner rounds x i seed xs)
unfolding inner
inner-Reordered zero x i seed xs = (omega arith, refl, λ key. refl)
inner-Reordered (suc rounds) x i seed xs = elim (Bool-cases (ltb i (length xs))) [
  | inl more ↦
      let xs' = swap xs (byte seed x % length xs) i in
      let rest = inner rounds (x + 1) (i + 1) seed xs' in
      let (forward, kept, same) = inner-Reordered rounds (x + 1) (i + 1) seed xs' in
      subst (Reordered i xs) {x = rest} (ground (arith, more)) (
        omega arith,
        kept ∙ length-swap xs (byte seed x % length xs) i,
        λ key. same key ∙ occurrences-swap key xs (byte seed x % length xs) i,
      )
  | inr done ↦
      subst (Reordered i xs) {x = (i, xs)} (ground (arith, done)) (omega arith, refl, λ key. refl)
]

module _ (p : Platform) where
  -- One round of the outer loop, and its end.
  outer_step :
      (fuel i : ℕ) (seed : List ℕ) (xs : List String)
      → ltb i (length xs) ≡ true
      → outer p (suc fuel) i seed xs
        ≡ outer p fuel ((inner 4 0 i seed xs).0 + 1) (p.sha256 seed) (inner 4 0 i seed xs).1
  unfolding outer
  outer_step fuel i seed xs more = ground (arith, more)

  outer_end :
      (fuel i : ℕ) (seed : List ℕ) (xs : List String)
      → ltb i (length xs) ≡ false
      → outer p fuel i seed xs ≡ xs
  unfolding outer
  outer_end zero i seed xs done = refl
  outer_end (suc fuel) i seed xs done = ground (arith, done)

  outer-occurrences :
      (key : String) (fuel i : ℕ) (seed : List ℕ) (xs : List String)
      → occurrences key (outer p fuel i seed xs) ≡ occurrences key xs
  unfolding outer
  outer-occurrences key zero i seed xs = refl
  outer-occurrences key (suc fuel) i seed xs = elim (Bool-cases (ltb i (length xs))) [
    | inr done ↦ ap (occurrences key) (outer_end (suc fuel) i seed xs done)
    | inl more ↦
        let (i', xs') = inner 4 0 i seed xs in
        let (forward, kept, same) = inner-Reordered 4 0 i seed xs in
        ap (occurrences key) (outer_step fuel i seed xs more)
        ∙ outer-occurrences key fuel (i' + 1) (p.sha256 seed) xs'
        ∙ same key
  ]

  -- With fuel for every place that is left, more of it changes nothing.
  outer-more_fuel :
      (fuel extra i : ℕ) (seed : List ℕ) (xs : List String)
      → length xs ≤ i + fuel
      → outer p (fuel + extra) i seed xs ≡ outer p fuel i seed xs
  unfolding outer
  outer-more_fuel zero extra i seed xs enough = outer_end (zero + extra) i seed xs (ground arith)
  outer-more_fuel (suc fuel) extra i seed xs enough = elim (Bool-cases (ltb i (length xs))) [
    | inr done ↦
        outer_end (suc fuel + extra) i seed xs done ∙ sym (outer_end (suc fuel) i seed xs done)
    | inl more ↦
        let (i', xs') = inner 4 0 i seed xs in
        let (forward, kept, same) = inner-Reordered 4 0 i seed xs in
        ap (λ m. outer p m i seed xs) {x = suc fuel + extra} {y = suc (fuel + extra)} (omega arith)
        ∙ outer_step (fuel + extra) i seed xs more
        ∙ outer-more_fuel fuel extra (i' + 1) (p.sha256 seed) xs' (omega arith)
        ∙ sym (outer_step fuel i seed xs more)
  ]

-- `generateDelegateList` returns each public key as often as the stored list of the round holds it, and its
-- loop has ended: it returns the same list with any more rounds allowed.
pub generate_delegate_list-occurrences :
    (p : Platform) (decimal : ℕ → String) (height : ℕ) (xs : List String)
    → ((key : String)
        → occurrences key (generate_delegate_list p decimal height xs) ≡ occurrences key xs)
      × ((extra : ℕ)
          → outer p (length xs + extra) 0 (p.sha256 (p.utf8 (decimal (calculate_round height)))) xs
            ≡ generate_delegate_list p decimal height xs)
unfolding generate_delegate_list
generate_delegate_list-occurrences p decimal height xs =
    let seed = p.sha256 (p.utf8 (decimal (calculate_round height))) in
    (
      λ key. outer-occurrences p key (length xs) 0 seed xs,
      λ extra. outer-more_fuel p (length xs) extra 0 seed xs (omega arith),
    )
