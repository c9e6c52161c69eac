-- ===== src/Prelude/Map.antt =====
-- A JavaScript `Map`, or an object used as one: an association list in insertion order.
use gny.Prelude.Lists.{length, contains, Distinct, Distinct-snoc}
use Prim.Native.Nat.{suc}
use gny.Prelude.Tests.{Eq, ◌==◌, if◌then◌else◌, is_some}
use mathlib.Core.Path.{◌≡◌, refl, ap, sym, ◌∙◌}
use mathlib.Core.Bool.{Bool, true, false}
use mathlib.Core.Option.{Option, none, some}
use mathlib.Core.List.{List, [], ◌∷◌, ◌++◌}
use native.Mathlib.Omega.{arith}

abbrev pub Map {ℓ κ} : Type ℓ → Type κ → Type (ℓ ⊔ κ)
Map K V = List (K × V)

module _ {ℓ κ} {K : Type ℓ} {V : Type κ} ⦃e : Eq K⦄ where
  unfoldable pub lookup : K → Map K V → Option V
  lookup k [] = none
  lookup k ((j, v) ∷ m) = if j == k then some v else lookup k m

  -- `m.has(k)`
  abbrev pub has : K → Map K V → Bool
  has k m = is_some (lookup k m)

  -- `m.set(k, v)`: an old entry keeps its place, a new one goes to the end.
  unfoldable pub insert : K → V → Map K V → Map K V
  insert k v [] = (k, v) ∷ []
  insert k v ((j, w) ∷ m) = if j == k then (k, v) ∷ m else (j, w) ∷ insert k v m

  -- `m.delete(k)`
  unfoldable pub erase : K → Map K V → Map K V
  erase k [] = []
  erase k ((j, w) ∷ m) = let rest = erase k m in if j == k then rest else (j, w) ∷ rest

  pub lookup-insert :
      (j k : K) (v : V) (m : Map K V)
      → lookup j (insert k v m) ≡ (if k == j then some v else lookup j m)
  unfolding lookup insert
  lookup-insert j k v [] = refl
  lookup-insert j k v ((i, w) ∷ m) =
      ground (arith, e.eqb_iff k j, e.eqb_iff i k, e.eqb_iff i j, lookup-insert j k v m)

  pub lookup-erase :
      (j k : K) (m : Map K V) → lookup j (erase k m) ≡ (if k == j then none else lookup j m)
  unfolding lookup erase
  lookup-erase j k [] = ground arith
  lookup-erase j k ((i, w) ∷ m) =
      ground (arith, e.eqb_iff k j, e.eqb_iff i k, e.eqb_iff i j, lookup-erase j k m)

  abbrev pub keys : Map K V → List K
  keys [] = []
  keys ((k, v) ∷ m) = k ∷ keys m

  pub has-contains : (k : K) (m : Map K V) → has k m ≡ contains (keys m) k
  unfolding lookup
  has-contains k [] = refl
  has-contains k ((j, v) ∷ m) = ground (arith, has-contains k m)

  pub length-keys : (m : Map K V) → length (keys m) ≡ length m
  length-keys [] = refl
  length-keys (x ∷ m) = ap suc (length-keys m)

  pub keys-insert_new :
      (k : K) (v : V) (m : Map K V) → has k m ≡ false → keys (insert k v m) ≡ keys m ++ k ∷ []
  unfolding lookup insert
  keys-insert_new k v [] h = refl
  keys-insert_new k v ((j, w) ∷ m) h = ground (arith, keys-insert_new k v m)

  pub erase_absent : (k : K) (m : Map K V) → contains (keys m) k ≡ false → erase k m ≡ m
  unfolding erase
  erase_absent k [] h = refl
  erase_absent k ((j, w) ∷ m) h = ground (arith, erase_absent k m)

  -- A map of at least one entry, whose keys are distinct, loses exactly its first entry.
  pub keys-erase_head :
      (k : K) (v : V) (m : Map K V) → contains (keys m) k ≡ false → erase k ((k, v) ∷ m) ≡ m
  unfolding erase
  keys-erase_head k v m h = ground (arith, e.eqb_iff k k, erase_absent k m)

  -- Sizes, where the keys are distinct.
  pub length-insert_new :
      (k : K) (v : V) (m : Map K V) → has k m ≡ false → length (insert k v m) ≡ suc (length m)
  unfolding lookup insert
  length-insert_new k v [] h = refl
  length-insert_new k v ((j, w) ∷ m) h = ground (arith, length-insert_new k v m)

  pub length-erase :
      (k : K) (m : Map K V)
      → Distinct (keys m)
      → has k m ≡ true
      → suc (length (erase k m)) ≡ length m
  unfolding lookup erase
  length-erase k [] d h = cc
  length-erase k ((j, w) ∷ m) d h =
      ground (arith, length-erase k m d.1, erase_absent k m, e.eqb_iff j k)

  contains-keys-erase :
      (k j : K) (m : Map K V) → contains (keys m) j ≡ false → contains (keys (erase k m)) j ≡ false
  unfolding erase
  contains-keys-erase k j [] h = refl
  contains-keys-erase k j ((i, w) ∷ m) h = ground (arith, contains-keys-erase k j m)

  pub Distinct-erase : (k : K) (m : Map K V) → Distinct (keys m) → Distinct (keys (erase k m))
  unfolding erase
  Distinct-erase k [] d = tt
  Distinct-erase k ((j, w) ∷ m) d =
      ground (arith, Distinct-erase k m d.1, contains-keys-erase k j m d.0)

  pub Distinct-insert_new :
      (k : K) (v : V) (m : Map K V)
      → Distinct (keys m)
      → has k m ≡ false
      → Distinct (keys (insert k v m))
  Distinct-insert_new k v m d h =
      rw (keys-insert_new k v m h) (Distinct-snoc (keys m) k d (sym (has-contains k m) ∙ h))
