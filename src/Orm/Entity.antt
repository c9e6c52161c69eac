-- ===== src/Orm/Entity.antt =====
-- packages/database-postgres/src/codeContract.ts, and the objects that the tracker and the caches keep: an
-- entity is an association list of its properties, in insertion order.
use gny.Prelude.{
  String, ◌≡◌, refl, sym, ap, ◌∙◌, ◌↔◌, inl, inr, Bool, true, false, not, ◌&&◌, Option, none, some,
  List, [], ◌∷◌, arith, eq_iff, if◌then◌else◌, Eq, ◌==◌, nat_eq, string_eq, option_eq, Option-cases,
  All,
}
use gny.Prelude.Int.{ℤ, pos, eqb_ℤ_iff, int_eq}
use gny.Prelude.Map.{Map, lookup, insert, lookup-insert}

-- A property's value; `undefined` is what a missing property reads as.
pub data Value : Type 0 where
  undefined : Value
  null : Value
  text : String → Value
  number : ℤ → Value

unfoldable pub value_eqb : Value → Value → Bool
value_eqb undefined undefined = true
value_eqb null null = true
value_eqb (text s) (text t) = s == t
value_eqb (number m) (number n) = m == n
value_eqb a b = false

pub value_eqb_iff : (a b : Value) → (value_eqb a b ≡ true) ↔ (a ≡ b)
unfolding value_eqb
value_eqb_iff undefined undefined = ground arith
value_eqb_iff null null = ground arith
value_eqb_iff (text s) (text t) = ground (arith, eq_iff s t)
value_eqb_iff (number m) (number n) = ground (arith, eqb_ℤ_iff m n)
value_eqb_iff a b = ground arith

instance abbrev pub value_eq : Eq Value
value_eq = record { eqb = value_eqb; eqb_iff = value_eqb_iff }

abbrev pub Entity : Type 0
Entity = Map String Value

unfoldable pub entity_eqb : Entity → Entity → Bool
entity_eqb [] [] = true
entity_eqb ((n, v) ∷ e) ((m, w) ∷ d) = n == m && v == w && entity_eqb e d
entity_eqb e d = false

pub entity_eqb_iff : (e d : Entity) → (entity_eqb e d ≡ true) ↔ (e ≡ d)
unfolding entity_eqb
entity_eqb_iff [] [] = ground arith
entity_eqb_iff ((n, v) ∷ e) ((m, w) ∷ d) =
    ground (arith, eq_iff n m, value_eqb_iff v w, entity_eqb_iff e d)
entity_eqb_iff e d = ground arith

-- Equality of the JSON texts of two objects that have no property with the value `undefined`.
instance abbrev pub entity_eq : Eq Entity
entity_eq = record { eqb = entity_eqb; eqb_iff = entity_eqb_iff }

-- `entity[name]`
abbrev pub property : String → Entity → Value
property name e = elim (lookup name e) [ none ↦ undefined | some v ↦ v ]

-- `!value` is false.
abbrev pub is_truthy : Value → Bool
is_truthy undefined = false
is_truthy null = false
is_truthy (text s) = not (s == "")
is_truthy (number n) = not (n == pos 0)

value_of_if :
    (b : Bool) (v : Value) (o : Option Value)
    → elim (if b then some v else o) as (λ _. Value) [ none ↦ undefined | some w ↦ w ]
      ≡ (if b then v else elim o as (λ _. Value) [ none ↦ undefined | some w ↦ w ])
value_of_if true v o = refl
value_of_if false v o = refl

pub property-insert :
    (name key : String) (v : Value) (e : Entity)
    → property name (insert key v e) ≡ (if key == name then v else property name e)
property-insert name key v e =
    ap (λ o. elim o as (λ _. Value) [ none ↦ undefined | some w ↦ w ]) (lookup-insert name key v e)
    ∙ value_of_if (key == name) v (lookup name e)

-- `partialCopy(source, keys)`: without the properties that the source lacks.
abbrev pub partial_copy : Entity → List String → Entity
partial_copy source [] = []
partial_copy source (name ∷ names) =
    let rest = partial_copy source names in
    elim (lookup name source) [ none ↦ rest | some v ↦ (name, v) ∷ rest ]

-- An object as `JSON.stringify` sees it, and a Map that has the text as its key.
abbrev pub json : Entity → Entity
json [] = []
json ((name, v) ∷ e) = let rest = json e in if v == undefined then rest else (name, v) ∷ rest

-- Two objects with the same properties.
abbrev pub Same : Entity → Entity → Type 0
Same e d = (name : String) → property name e ≡ property name d

pub json-partial_copy :
    (e : Entity) (name : String) (names : List String)
    → json (partial_copy e (name ∷ names)) ≡ (
        if property name e == undefined
        then json (partial_copy e names)
        else (name, property name e) ∷ json (partial_copy e names))
unfolding value_eqb
json-partial_copy e name names = elim (Option-cases (lookup name e)) [
  | inl absent ↦ ground arith
  | inr (v, found) ↦ ground arith
]

-- The JSON text of a copy of some properties depends on these only.
pub json-partial_copy-All :
    (e d : Entity) (names : List String)
    → All (λ name. property name e ≡ property name d) names
    → json (partial_copy e names) ≡ json (partial_copy d names)
json-partial_copy-All e d [] h = refl
json-partial_copy-All e d (name ∷ names) (h, hs) =
    json-partial_copy e name names
    ∙ ap
        (λ v.
          if v == undefined
          then json (partial_copy e names)
          else (name, v) ∷ json (partial_copy e names))
        h
    ∙ ap (λ rest. if property name d == undefined then rest else (name, property name d) ∷ rest)
        (json-partial_copy-All e d names hs)
    ∙ sym (json-partial_copy d name names)

All-of_Same :
    (e d : Entity) (names : List String)
    → Same e d
    → All (λ name. property name e ≡ property name d) names
All-of_Same e d [] h = tt
All-of_Same e d (name ∷ names) h = (h name, All-of_Same e d names h)

pub json-partial_copy-Same :
    (e d : Entity) (names : List String)
    → Same e d
    → json (partial_copy e names) ≡ json (partial_copy d names)
json-partial_copy-Same e d names h = json-partial_copy-All e d names (All-of_Same e d names h)
