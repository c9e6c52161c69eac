-- ===== src/Pool/View.antt =====
-- The transaction pool refines a list of transactions with distinct ids, oldest first.
use gny.Prelude.{
  ℕ, zero, suc, ◌-◌, String, ◌≡◌, refl, ap, ◌∙◌, ◌≢◌, ◌⊎◌, inl, inr, false, Option, none, some,
  List, [], ◌∷◌, ◌++◌, arith, eq_iff, ◌==◌, nat_eq, string_eq, Bool-cases, Option-cases, is_some,
  length, get_elem?, set, get_elem?-append_self, get_elem?-append_left,
}
use gny.Prelude.Map.{Map, lookup, erase, lookup-insert, lookup-erase}
use gny.Interfaces.{Transaction}
use gny.Pool.Slots.{
  find_id, remove_id, present-append, find_id-none, find_id-slot, get_elem?-lt, some_eq,
  get_elem?-snoc, last_index,
}
use gny.Pool.{TransactionPool, empty, add, remove, get, has_id, get_unconfirmed, clear}

-- The index points at the slot that holds the transaction, and every slot in use is in the index.
pub record IsIndexed (index : Map String ℕ) (slots : List (Option Transaction)) : Type 0 where
  pub points :
      (id : String) (at : ℕ)
      → lookup id index ≡ some at
      → (t : Transaction) × (get_elem? slots at ≡ some (some t)) × (t.id ≡ id)
  pub covers :
      (at : ℕ) (t : Transaction) → get_elem? slots at ≡ some (some t) → lookup t.id index ≡ some at

abbrev pub IsValid : TransactionPool → Type 0
IsValid p = IsIndexed p.index p.un_confirmed

none_found : (id : String) → lookup {V = ℕ} id [] ≡ none
unfolding lookup
none_found id = refl

pub empty-IsValid : IsValid empty
empty-IsValid = record { points = λ id at h. cc (none_found id, h); covers = λ at t h. cc }

-- `has` and `get` look up the list.
pub has_id-find_id :
    (id : String) (p : TransactionPool)
    → IsValid p
    → (get id p ≡ find_id id (get_unconfirmed p))
      × (has_id id p ≡ is_some (find_id id (get_unconfirmed p)))
unfolding get has_id
has_id-find_id id p v = elim (Option-cases (lookup id p.index)) [
  | inl absent ↦
      ground (arith, find_id-none id p.un_confirmed (λ j u hj ej. cc (v.covers j u hj, ej, absent)))
  | inr (at, found) ↦
      let (t, held, e) = v.points id at found in
      ground (arith, find_id-slot id p.un_confirmed at t held e (λ j u hj ej. cc (v.covers j u hj)))
]

has_id-lookup :
    (id : String) (p : TransactionPool) → IsValid p → has_id id p ≡ false → lookup id p.index ≡ none
unfolding has_id
has_id-lookup id p v h = elim (Option-cases (lookup id p.index)) [
  | inl absent ↦ absent
  | inr (at, found) ↦ let (t, held, e) = v.points id at found in ground arith
]

module _ (t : Transaction) (p : TransactionPool) (v : IsValid p) (new : has_id t.id p ≡ false) where
  points_at :
      (id : String) (at : ℕ)
      → lookup id (add t p).index ≡ some at
      → (u : Transaction) × (get_elem? (add t p).un_confirmed at ≡ some (some u)) × (u.id ≡ id)
  unfolding add
  points_at id at h = elim (Bool-cases (t.id == id)) [
    | inl e ↦ (
      t,
      ground (
        arith,
        lookup-insert id t.id (length (p.un_confirmed ++ some t ∷ []) - 1) p.index,
        last_index p.un_confirmed t,
        get_elem?-append_self p.un_confirmed (some t),
      ),
      (eq_iff t.id id).0 e,
    )
    | inr e ↦
        let (u, held, same) = v.points id at (
          ground
            (arith, lookup-insert id t.id (length (p.un_confirmed ++ some t ∷ []) - 1) p.index)) in
        (
          u,
          get_elem?-append_left p.un_confirmed (some t ∷ []) at
                (get_elem?-lt p.un_confirmed at held)
              ∙ held,
          same,
        )
  ]

  covers_at :
      (at : ℕ) (u : Transaction)
      → get_elem? (add t p).un_confirmed at ≡ some (some u)
      → lookup u.id (add t p).index ≡ some at
  unfolding add
  covers_at at u h = elim (get_elem?-snoc p.un_confirmed (some t) (some u) at h) [
    | inl old ↦ ground (
      arith,
      lookup-insert u.id t.id (length (p.un_confirmed ++ some t ∷ []) - 1) p.index,
      v.covers at u old,
      eq_iff t.id u.id,
      has_id-lookup t.id p v new,
    )
    | inr (e, same) ↦ ground (
      arith,
      lookup-insert u.id t.id (length (p.un_confirmed ++ some t ∷ []) - 1) p.index,
      last_index p.un_confirmed t,
      eq_iff t.id u.id,
    )
  ]

  -- Adding a transaction whose id is not in the pool keeps the index right.
  pub add-IsValid : IsValid (add t p)
  add-IsValid = record { points = points_at; covers = covers_at }

get_elem?-set_cases :
    {A : Type 0} (xs : List A) (i j : ℕ) (v a : A)
    → get_elem? (set xs i v) j ≡ some a
    → ((i ≢ j) × (get_elem? xs j ≡ some a)) ⊎ ((i ≡ j) × (v ≡ a))
get_elem?-set_cases [] i j v a h = cc
get_elem?-set_cases (x ∷ xs) zero zero v a h = inr (refl, some_eq h)
get_elem?-set_cases (x ∷ xs) zero (suc j) v a h = inl (omega arith, h)
get_elem?-set_cases (x ∷ xs) (suc i) zero v a h = inl (omega arith, h)
get_elem?-set_cases (x ∷ xs) (suc i) (suc j) v a h = elim (get_elem?-set_cases xs i j v a h) [
  | inl (ne, old) ↦ inl ((λ e. ne (omega arith)), old)
  | inr (e, f) ↦ inr (ap suc e, f)
]

get_elem?-set_other :
    {A : Type 0} (xs : List A) (i j : ℕ) (v : A) → i ≢ j → get_elem? (set xs i v) j ≡ get_elem? xs j
get_elem?-set_other [] i j v ne = refl
get_elem?-set_other (x ∷ xs) zero zero v ne = absurd (ne refl)
get_elem?-set_other (x ∷ xs) zero (suc j) v ne = refl
get_elem?-set_other (x ∷ xs) (suc i) zero v ne = refl
get_elem?-set_other (x ∷ xs) (suc i) (suc j) v ne =
    get_elem?-set_other xs i j v (λ e. ne (ap suc e))

-- Clearing the slot of an id and taking the id out of the index.
removed-IsIndexed :
    (id : String) (at : ℕ) (p : TransactionPool)
    → IsValid p
    → lookup id p.index ≡ some at
    → IsIndexed (erase id p.index) (set p.un_confirmed at none)
removed-IsIndexed id at p v found = record {
  points = λ k i h.
      let (u, held, same) = v.points k i (ground (arith, lookup-erase k id p.index)) in
      let (t, taken, own) = v.points id at found in
      let other : at ≢ i = λ e.
        ground (arith, lookup-erase k id p.index, eq_iff id k, ap (get_elem? p.un_confirmed) e) in
      (u, get_elem?-set_other p.un_confirmed at i none other ∙ held, same);
  covers = λ i u h. elim (get_elem?-set_cases p.un_confirmed at i none (some u) h) [
    | inl (ne, old) ↦ ground (arith, lookup-erase u.id id p.index, v.covers i u old, eq_iff id u.id)
    | inr (e, bad) ↦ cc
  ];
}

pub view-add :
    (t : Transaction) (p : TransactionPool)
    → get_unconfirmed (add t p) ≡ get_unconfirmed p ++ t ∷ []
unfolding add
view-add t p = present-append p.un_confirmed (some t ∷ [])

pub view-remove :
    (id : String) (p : TransactionPool)
    → IsValid p
    → get_unconfirmed (remove id p) ≡ remove_id id (get_unconfirmed p)
unfolding remove
view-remove id p v = elim (Option-cases (lookup id p.index)) [
  | inl absent ↦
      ground (arith, find_id-none id p.un_confirmed (λ j u hj ej. cc (v.covers j u hj, ej, absent)))
  | inr (at, found) ↦
      let (t, held, e) = v.points id at found in
      ground (arith, find_id-slot id p.un_confirmed at t held e (λ j u hj ej. cc (v.covers j u hj)))
]

pub remove-IsValid : (id : String) (p : TransactionPool) → IsValid p → IsValid (remove id p)
unfolding remove
remove-IsValid id p v = elim (Option-cases (lookup id p.index)) [
  | inl absent ↦ rw (absent, remove) v
  | inr (at, found) ↦ rw (found, remove) (removed-IsIndexed id at p v found)
]

-- The pool refines a list of transactions with distinct ids, oldest first, which is what
-- `getUnconfirmed` returns. In a pool whose index is right, `get` and `has` look the list up;
-- `add` of an id that `has` denies appends to it, and `remove` takes out just the transaction with
-- that id; both keep the index right, and a new or cleared pool has a right index.
pub pool_refines_list :
    (p : TransactionPool) (id : String) (t : Transaction)
    → IsValid p
    → has_id t.id p ≡ false
    → (get id p ≡ find_id id (get_unconfirmed p))
      × (has_id id p ≡ is_some (find_id id (get_unconfirmed p)))
      × (get_unconfirmed (add t p) ≡ get_unconfirmed p ++ t ∷ [])
      × (get_unconfirmed (remove id p) ≡ remove_id id (get_unconfirmed p))
      × IsValid (add t p)
      × IsValid (remove id p)
      × IsValid (clear p)
pool_refines_list p id t v new = (
  (has_id-find_id id p v).0,
  (has_id-find_id id p v).1,
  view-add t p,
  view-remove id p v,
  add-IsValid t p v new,
  remove-IsValid id p v,
  empty-IsValid,
)
