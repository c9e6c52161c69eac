-- ===== src/Pool.antt =====
-- packages/transaction-pool/src/index.ts, `class TransactionPool`.
use gny.Prelude.{
  ℕ, zero, suc, ◌+◌, ◌-◌, String, ap, Bool, false, Option, none, some, List, [], ◌∷◌, ◌++◌, arith,
  if◌then◌else◌, nat_eq, string_eq, is_some, length, get_elem?, set,
}
use gny.Prelude.Map.{Map, lookup, has, insert, erase}
pub mod Slots
pub mod View
use gny.Interfaces.{Transaction}

pub record TransactionPool : Type 0 where
  pub index : Map String ℕ
  pub un_confirmed : List (Option Transaction)

-- `constructor`, and `clear`
abbrev pub empty : TransactionPool
empty = record { index = []; un_confirmed = [] }

-- `add(trs)`
unfoldable pub add : Transaction → TransactionPool → TransactionPool
add trs p =
    let slots = p.un_confirmed ++ some trs ∷ [] in
    record { index = insert trs.id (length slots - 1) p.index; un_confirmed = slots }

-- `remove(id)`
unfoldable pub remove : String → TransactionPool → TransactionPool
remove id p = elim (lookup id p.index) [
  | none ↦ p
  | some at ↦ record { index = erase id p.index; un_confirmed = set p.un_confirmed at none }
]

-- `this.unConfirmed[pos]`, `undefined` out of range too.
abbrev pub slot : List (Option Transaction) → ℕ → Option Transaction
slot slots at = elim (get_elem? slots at) [ none ↦ none | some content ↦ content ]

-- `get(id)`
unfoldable pub get : String → TransactionPool → Option Transaction
get id p = elim (lookup id p.index) [ none ↦ none | some at ↦ slot p.un_confirmed at ]

-- `has(id)`
unfoldable pub has_id : String → TransactionPool → Bool
has_id id p = elim (lookup id p.index) [ none ↦ false | some at ↦ is_some (slot p.un_confirmed at) ]

abbrev pub present : List (Option Transaction) → List Transaction
present [] = []
present (none ∷ slots) = present slots
present (some t ∷ slots) = t ∷ present slots

-- `getUnconfirmed()`
abbrev pub get_unconfirmed : TransactionPool → List Transaction
get_unconfirmed p = present p.un_confirmed

-- The rest of `clear()`: both fields start anew.
abbrev pub clear : TransactionPool → TransactionPool
clear p = empty
