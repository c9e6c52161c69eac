-- ===== src/Pool/Slots.antt =====
-- The transactions in the slots of the pool, as a list.
use gny.Prelude.{
  ℕ, zero, suc, ◌-◌, ◌<◌, String, ◌≡◌, refl, ap, ◌≢◌, ◌⊎◌, inl, inr, Option, none, some, List, [],
  ◌∷◌, ◌++◌, arith, eq_iff, if◌then◌else◌, ◌==◌, nat_eq, string_eq, option_eq, length, get_elem?,
  set, length-append,
}
use gny.Prelude.Int.{int_eq}
use gny.Interfaces.{Transaction}
use gny.Pool.{present}

-- The abstract operations on a list of transactions.
unfoldable pub find_id : String → List Transaction → Option Transaction
find_id id [] = none
find_id id (t ∷ ts) = if t.id == id then some t else find_id id ts

unfoldable pub remove_id : String → List Transaction → List Transaction
remove_id id [] = []
remove_id id (t ∷ ts) = let rest = remove_id id ts in if t.id == id then rest else t ∷ rest

pub present-append :
    (xs ys : List (Option Transaction)) → present (xs ++ ys) ≡ present xs ++ present ys
present-append [] ys = refl
present-append (none ∷ xs) ys = present-append xs ys
present-append (some t ∷ xs) ys = ap (λ r. t ∷ r) (present-append xs ys)

pub find_id-none :
    (id : String) (slots : List (Option Transaction))
    → ((j : ℕ) (u : Transaction) → get_elem? slots j ≡ some (some u) → u.id ≢ id)
    → (find_id id (present slots) ≡ none) × (remove_id id (present slots) ≡ present slots)
unfolding find_id remove_id
find_id-none id [] out = (refl, refl)
find_id-none id (none ∷ slots) out = find_id-none id slots (λ j u h. out (suc j) u h)
find_id-none id (some t ∷ slots) out =
    ground (arith, find_id-none id slots (λ j u h. out (suc j) u h), out 0 t refl, eq_iff t.id id)

-- The slot of an id that no other slot holds.
pub find_id-slot :
    (id : String) (slots : List (Option Transaction)) (at : ℕ) (t : Transaction)
    → get_elem? slots at ≡ some (some t)
    → t.id ≡ id
    → ((j : ℕ) (u : Transaction) → get_elem? slots j ≡ some (some u) → u.id ≡ id → j ≡ at)
    → (find_id id (present slots) ≡ some t)
      × (present (set slots at none) ≡ remove_id id (present slots))
unfolding find_id remove_id
find_id-slot id [] at t h e only = cc
find_id-slot id (none ∷ slots) zero t h e only = cc
find_id-slot id (none ∷ slots) (suc at) t h e only =
    find_id-slot id slots at t h e (λ j u hj ej. omega (arith, only (suc j) u hj ej))
find_id-slot id (some u ∷ slots) zero t h e only = ground (
  arith,
  eq_iff u.id id,
  find_id-none id slots (λ j v hj ej. absurd (omega (arith, only (suc j) v hj ej))),
)
find_id-slot id (some u ∷ slots) (suc at) t h e only = ground (
  arith,
  eq_iff u.id id,
  only 0 u refl,
  find_id-slot id slots at t h e (λ j v hj ej. omega (arith, only (suc j) v hj ej)),
)

pub get_elem?-lt :
    {A : Type 0} (xs : List A) (i : ℕ) {a : A} → get_elem? xs i ≡ some a → i < length xs
get_elem?-lt [] i h = cc
get_elem?-lt (x ∷ xs) zero h = omega arith
get_elem?-lt (x ∷ xs) (suc i) h = omega (arith, get_elem?-lt xs i h)

pub some_eq : {A : Type 0} {a b : A} → some a ≡ some b → a ≡ b
some_eq h = cc

pub get_elem?-snoc :
    {A : Type 0} (xs : List A) (x a : A) (i : ℕ)
    → get_elem? (xs ++ x ∷ []) i ≡ some a
    → (get_elem? xs i ≡ some a) ⊎ ((i ≡ length xs) × (x ≡ a))
get_elem?-snoc [] x a zero h = inr (refl, some_eq h)
get_elem?-snoc [] x a (suc i) h = cc
get_elem?-snoc (y ∷ xs) x a zero h = inl h
get_elem?-snoc (y ∷ xs) x a (suc i) h = elim (get_elem?-snoc xs x a i h) [
  | inl old ↦ inl old
  | inr (e, f) ↦ inr (ap suc e, f)
]

pub last_index :
    (slots : List (Option Transaction)) (t : Transaction)
    → length (slots ++ some t ∷ []) - 1 ≡ length slots
last_index slots t = omega (arith, length-append slots (some t ∷ []))
