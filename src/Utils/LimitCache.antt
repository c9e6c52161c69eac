-- ===== src/Utils/LimitCache.antt =====
-- packages/utils/src/limit-cache.ts, `class LimitCache`.
use gny.Prelude.{
  ℕ, zero, suc, ◌+◌, ap, Bool, false, not, ◌&&◌, none, some, List, [], ◌∷◌, ◌++◌, arith, leb,
  if◌then◌else◌, Eq, ◌==◌, nat_eq, string_eq, length, set,
}
use gny.Prelude.Map.{Map, lookup, has, insert, erase}
pub mod Fifo
pub mod Keys

pub record LimitCache {ℓ κ} (K : Type ℓ) (V : Type κ) : Type (ℓ ⊔ κ) where
  pub cache : Map K V
  pub index : List K
  pub limit : ℕ

module _ {ℓ κ} {K : Type ℓ} {V : Type κ} where
  -- `constructor(limit)`
  abbrev pub new : ℕ → LimitCache K V
  new limit = record { cache = []; index = []; limit = limit }

module _ {ℓ κ} {K : Type ℓ} {V : Type κ} ⦃e : Eq K⦄ ⦃f : Eq V⦄ where
  -- `this.cache.has(key) && this.cache.get(key) === value`
  abbrev already_saved : K → V → LimitCache K V → Bool
  already_saved key value c = elim (lookup key c.cache) [ none ↦ false | some old ↦ old == value ]

  -- `this.cache.delete(this.index.shift())`; on an empty index nothing is deleted.
  drop_oldest : LimitCache K V → List K → LimitCache K V
  drop_oldest c [] = c
  drop_oldest c (drop_key ∷ rest) = record c { cache = erase drop_key c.cache; index = rest }

  store : K → V → LimitCache K V → LimitCache K V
  store key value c = record c { cache = insert key value c.cache; index = c.index ++ key ∷ [] }

  -- `set(key, value)`
  unfoldable pub set_entry : K → V → LimitCache K V → LimitCache K V
  unfolding drop_oldest store
  set_entry key value c =
      if already_saved key value c
      then c
      else store key value (
          if leb c.limit (length c.cache) && not (has key c.cache)
          then drop_oldest c c.index
          else c)

  -- `has(key)`
  abbrev pub has_key : K → LimitCache K V → Bool
  has_key key c = has key c.cache
