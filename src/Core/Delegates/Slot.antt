-- ===== src/Core/Delegates/Slot.antt =====
-- Which slot a node forges in.
use gny.Prelude.{
  ℕ, zero, suc, ◌+◌, ◌-◌, ◌*◌, ◌%◌, ◌<◌, String, ◌≡◌, refl, sym, ap, ◌∙◌, ◌≢◌, inl, inr, true,
  Option, none, some, List, [], ◌∷◌, arith, nat_eq, string_eq, option_eq, Option-cases, is_some,
  get_elem?,
}
use gny.Prelude.Int.{int_eq}
use gny.Prelude.Map.{Map, lookup}
use mathlib.Core.Path.{subst}
use gny.Utils.Slots.{get_slot_time}
use gny.Interfaces.{KeyPair}
use gny.Core.Delegates.{key_pair_at, find_slot, get_block_slot_data}

-- The outcome of the search among n slots from `slot` on: the first slot whose delegate's key pair the
-- node has, or none of them.
abbrev pub FirstSlot : ℕ → ℕ → List String → Map String KeyPair → Option (ℕ × KeyPair) → Type 0
FirstSlot n slot active key_pairs none =
    (k : ℕ) → k < n → key_pair_at active key_pairs (slot + k) ≡ none
FirstSlot n slot active key_pairs (some (time, keypair)) =
    (k : ℕ) × (k < n)
    × (time ≡ (slot + k) * 10)
    × (key_pair_at active key_pairs (slot + k) ≡ some keypair)
    × ((j : ℕ) → j < k → key_pair_at active key_pairs (slot + j) ≡ none)

module _ (active : List String) (key_pairs : Map String KeyPair) where
  none_before :
      (slot k : ℕ)
      → key_pair_at active key_pairs slot ≡ none
      → ((j : ℕ) → j < k → key_pair_at active key_pairs (slot + 1 + j) ≡ none)
      → (j : ℕ) → j < suc k
      → key_pair_at active key_pairs (slot + j) ≡ none
  none_before slot k e h zero l = subst (λ m. key_pair_at active key_pairs m ≡ none) (omega arith) e
  none_before slot k e h (suc j) l =
      subst (λ m. key_pair_at active key_pairs m ≡ none) (omega arith) (h j (omega arith))

  -- A slot with no key pair in front of a search.
  FirstSlot-later :
      (n slot : ℕ) (r : Option (ℕ × KeyPair))
      → key_pair_at active key_pairs slot ≡ none
      → FirstSlot n (slot + 1) active key_pairs r
      → FirstSlot (suc n) slot active key_pairs r
  FirstSlot-later n slot none e h = none_before slot n e h
  FirstSlot-later n slot (some (time, keypair)) e (k, l, t, found, before) = (
    suc k,
    omega arith,
    t ∙ ap (λ m. m * 10) (omega arith),
    subst (λ m. key_pair_at active key_pairs m ≡ some keypair) (omega arith) found,
    none_before slot k e before,
  )

  found_now :
      (n slot : ℕ) (keypair : KeyPair)
      → key_pair_at active key_pairs slot ≡ some keypair
      → FirstSlot (suc n) slot active key_pairs (some (get_slot_time slot, keypair))
  found_now n slot keypair e = (
    0,
    omega arith,
    omega arith,
    subst (λ m. key_pair_at active key_pairs m ≡ some keypair) (omega arith) e,
    λ j l. elim l [ ],
  )

  find_slot-FirstSlot :
      (n slot : ℕ) → FirstSlot n slot active key_pairs (find_slot n slot active key_pairs)
  unfolding find_slot
  find_slot-FirstSlot zero slot = λ k h. elim h [ ]
  find_slot-FirstSlot (suc n) slot = elim (Option-cases (key_pair_at active key_pairs slot)) [
    | inl e ↦
        subst (FirstSlot (suc n) slot active key_pairs)
          {x = find_slot n (slot + 1) active key_pairs} (ground (arith, e))
          (FirstSlot-later n slot (find_slot n (slot + 1) active key_pairs) e
            (find_slot-FirstSlot n (slot + 1)))
    | inr (keypair, e) ↦
        subst (FirstSlot (suc n) slot active key_pairs) {x = some (get_slot_time slot, keypair)}
          (ground (arith, e)) (found_now n slot keypair e)
  ]

get_block_slot_data-eq :
    (slot : ℕ) (active : List String) (key_pairs : Map String KeyPair)
    → active ≢ []
    → find_slot 101 slot active key_pairs ≡ get_block_slot_data slot active key_pairs
unfolding get_block_slot_data
get_block_slot_data-eq slot [] key_pairs h = elim (h refl) [ ]
get_block_slot_data-eq slot (key ∷ active) key_pairs h =
    ap (λ m. find_slot m slot (key ∷ active) key_pairs) {x = 101} (omega arith)

-- `getBlockSlotData` on a list that is not empty searches the 101 slots from the given one on: it returns
-- the first whose delegate's key pair the node has, with the time the slot starts at, and undefined
-- exactly if there is none among them.
pub get_block_slot_data-FirstSlot :
    (slot : ℕ) (active : List String) (key_pairs : Map String KeyPair)
    → active ≢ []
    → FirstSlot 101 slot active key_pairs (get_block_slot_data slot active key_pairs)
get_block_slot_data-FirstSlot slot active key_pairs h =
    subst (FirstSlot 101 slot active key_pairs) (get_block_slot_data-eq slot active key_pairs h)
      (find_slot-FirstSlot active key_pairs 101 slot)

-- The distance from a slot to the next turn of place i.
turn : (slot i : ℕ) → i < 101 → (k : ℕ) × (k < 101) × ((slot + k) % 101 ≡ i)
turn slot i h = ((i + (101 - slot % 101)) % 101, omega arith, omega arith)

key_pair_at-turn :
    (m i : ℕ) (key : String) (keypair : KeyPair) (active : List String)
    (key_pairs : Map String KeyPair)
    → m % 101 ≡ i
    → get_elem? active i ≡ some key
    → lookup key key_pairs ≡ some keypair
    → key_pair_at active key_pairs m ≡ some keypair
key_pair_at-turn m i key keypair active key_pairs e at has_key =
    let at' = subst (λ j. get_elem? active j ≡ some key) (sym e) at in ground (arith, at', has_key)

-- A node that has the key pair of one of the 101 active delegates finds a slot to forge in.
pub get_block_slot_data-is_some :
    (slot i : ℕ) (key : String) (keypair : KeyPair) (active : List String)
    (key_pairs : Map String KeyPair)
    → i < 101
    → get_elem? active i ≡ some key
    → lookup key key_pairs ≡ some keypair
    → is_some (get_block_slot_data slot active key_pairs) ≡ true
get_block_slot_data-is_some slot i key keypair [] key_pairs h at has_key = ground arith
get_block_slot_data-is_some slot i key keypair (a ∷ active) key_pairs h at has_key =
    let (k, l, e) = turn slot i h in
    elim (Option-cases (get_block_slot_data slot (a ∷ active) key_pairs)) [
      | inr (r, found) ↦ ap is_some found
      | inl nothing ↦
          let absent =
            subst (FirstSlot 101 slot (a ∷ active) key_pairs) nothing (
              get_block_slot_data-FirstSlot slot (a ∷ active) key_pairs (λ f. ground (arith, f))) in
          ground (
            arith,
            absent k l,
            key_pair_at-turn (slot + k) i key keypair (a ∷ active) key_pairs e at has_key,
          )
    ]
