-- ===== src/Orm/Changes/Restored.antt =====
-- packages/database-postgres/src/basicEntityTracker.ts: the original values in a record of changes are those of the
-- row before.
use gny.Prelude.{
  String, ◌≡◌, refl, sym, ap, ◌∙◌, inl, inr, Bool, true, false, ◌&&◌, ◌||◌, Option, none, some,
  List, [], ◌∷◌, ◌++◌, arith, eq_iff, if◌then◌else◌, ◌==◌, nat_eq, string_eq, option_eq, Bool-cases,
  Option-cases, is_some, All, contains, Distinct,
}
use gny.Prelude.Int.{ℤ, int_eq}
use gny.Prelude.Map.{lookup, has, insert, lookup-insert, keys, has-contains}
use gny.Orm.Entity.{Value, number, Entity, property, property-insert, partial_copy, Same}
use gny.Orm.Schema.{ModelSchema, is_valid_property}
use gny.Orm.EntityCache.{PropertyValue, assign, names_of}
use gny.Orm.EntityCache.Refresh.{property-assign_other, All-of_contains, or_false}
use gny.Orm.Changes.{
  PropertyChange, version_property, set_version, changed, deleted, originals, make_json_object,
}

-- Copies of the key.
partial_copy-All :
    (e d : Entity) (names : List String)
    → All (λ name. lookup name e ≡ lookup name d) names
    → partial_copy e names ≡ partial_copy d names
partial_copy-All e d [] h = refl
partial_copy-All e d (name ∷ names) (h, hs) =
    ap
      (λ o. elim o as (λ _. Entity) [
        | none ↦ partial_copy e names
        | some v ↦ (name, v) ∷ partial_copy e names
      ])
      h
    ∙ ap (λ rest. elim (lookup name d) as (λ _. Entity) [ none ↦ rest | some v ↦ (name, v) ∷ rest ])
        (partial_copy-All e d names hs)

lookup-partial_copy :
    (e : Entity) (name : String) (names : List String)
    → lookup name (partial_copy e names) ≡ (if contains names name then lookup name e else none)
unfolding lookup
lookup-partial_copy e name [] = refl
lookup-partial_copy e name (n ∷ names) = elim (Option-cases (lookup n e)) [
  | inl missing ↦ ground (arith, lookup-partial_copy e name names, eq_iff n name)
  | inr (v, found) ↦ ground (arith, lookup-partial_copy e name names, eq_iff n name)
]

pub other_name :
    (name : String) (names : List String)
    → contains names name ≡ true
    → contains names version_property ≡ false
    → (version_property == name) ≡ false
other_name name names inside absent = elim (Bool-cases (version_property == name)) [
  | inl same ↦
      cc (sym absent ∙ ap (contains names) ((eq_iff version_property name).0 same) ∙ inside)
  | inr other ↦ other
]

pub partial_copy_twice :
    (e : Entity) (names : List String)
    → partial_copy (partial_copy e names) names ≡ partial_copy e names
partial_copy_twice e names = partial_copy-All (partial_copy e names) e names (
    All-of_contains (λ name. lookup name (partial_copy e names) ≡ lookup name e) names
      (λ name inside.
        lookup-partial_copy e name names ∙ ap (λ b. if b then lookup name e else none) inside))

-- Setting the version leaves a key alone that has no version.
pub partial_copy-set_version :
    (e : Entity) (n : ℤ) (names : List String)
    → contains names version_property ≡ false
    → partial_copy (set_version n e) names ≡ partial_copy e names
partial_copy-set_version e n names absent = partial_copy-All (set_version n e) e names (
    All-of_contains (λ name. lookup name (set_version n e) ≡ lookup name e) names
      (λ name inside.
        lookup-insert name version_property (number n) e
        ∙ ap (λ b. if b then some (number n) else lookup name e)
            (other_name name names inside absent)))

outside_more : (a b c : Bool) → b ≡ false → (a || c) ≡ false → (a || (b || c)) ≡ false
outside_more a b c h k = ap (λ x. a || (x || c)) h ∙ k

inside_more : (a b : Bool) → b ≡ true → (a || b) ≡ true
inside_more true b h = refl
inside_more false b h = h

-- After a modification: the recorded values give back what the row was.
module _ (e before : Entity) (version now : ℤ)
    (at : property version_property e ≡ number version) where
  abbrev recorded : List PropertyValue → List PropertyChange
  recorded values =
      changed before values
      ++ record { name = version_property; original = number version; current = number now } ∷ []

  pub Same-assign-originals :
      (values : List PropertyValue) (d : Entity)
      → ((name : String)
          → contains (version_property ∷ names_of values) name ≡ false
          → property name d ≡ property name e)
      → ((name : String)
          → contains (names_of values) name ≡ true
          → property name before ≡ property name e)
      → Same (assign (originals (recorded values)) d) e
  Same-assign-originals [] d rest same = λ name.
      property-insert name version_property (number version) d
      ∙ elim (Bool-cases (version_property == name)) [
        | inl this ↦
            ap (λ b. if b then number version else property name d) this
            ∙ sym at
            ∙ ap (λ x. property x e) ((eq_iff version_property name).0 this)
        | inr other ↦
            ap (λ b. if b then number version else property name d) other
            ∙ rest name (ap (λ b. b || false) other)
      ]
  Same-assign-originals (v ∷ values) d rest same =
      Same-assign-originals values (insert v.name (property v.name before) d)
        (λ name outside.
          property-insert name v.name (property v.name before) d
          ∙ elim (Bool-cases (v.name == name)) [
            | inl this ↦
                ap (λ b. if b then property v.name before else property name d) this
                ∙ same v.name (
                    ap (λ b. b || contains (names_of values) v.name)
                      ((eq_iff v.name v.name).1 refl))
                ∙ ap (λ x. property x e) ((eq_iff v.name name).0 this)
            | inr other ↦
                ap (λ b. if b then property v.name before else property name d) other
                ∙ rest name (
                    outside_more (version_property == name) (v.name == name)
                      (contains (names_of values) name) other outside)
          ])
        (λ name inside.
          same name (inside_more (v.name == name) (contains (names_of values) name) inside))

-- Outside the names that are assigned, a row with a new version is the old one.
pub property-assign-set_version :
    (e : Entity) (values : List PropertyValue) (n : ℤ) (name : String)
    → contains (version_property ∷ names_of values) name ≡ false
    → property name (assign values (set_version n e)) ≡ property name e
property-assign-set_version e values n name h =
    let (not_version, others) =
      or_false (version_property == name) (contains (names_of values) name) h in
    property-assign_other name values (set_version n e) others
    ∙ property-insert name version_property (number n) e
    ∙ ap (λ b. if b then number n else property name e) not_version

-- The object that is made of a deletion's record has the properties that the model has.
lookup-assign-deleted :
    (schema : ModelSchema) (e acc : Entity) (name : String)
    → Distinct (keys e)
    → lookup name (assign (originals (deleted schema e)) acc)
      ≡ (if is_valid_property schema name && has name e then lookup name e else lookup name acc)
unfolding lookup
lookup-assign-deleted schema [] acc name d = ground arith
lookup-assign-deleted schema ((n, v) ∷ e) acc name d =
    elim (Bool-cases (is_valid_property schema n)) [
      | inl valid ↦ rw valid (
          lookup-assign-deleted schema e (insert n v acc) name d.1
          ∙ ap (λ o. if is_valid_property schema name && has name e then lookup name e else o)
              (lookup-insert name n v acc)
          ∙ ground (arith, eq_iff n name, has-contains n e))
      | inr invalid ↦ rw invalid (
          lookup-assign-deleted schema e acc name d.1
          ∙ ground (arith, eq_iff n name, has-contains n e))
    ]

missing_or : (o : Option Value) → (if is_some o then o else none) ≡ o
missing_or none = refl
missing_or (some v) = refl

pub lookup-make_json_object :
    (schema : ModelSchema) (e : Entity) (name : String)
    → Distinct (keys e)
    → ((name : String) → is_valid_property schema name ≡ false → lookup name e ≡ none)
    → lookup name (make_json_object (originals (deleted schema e))) ≡ lookup name e
unfolding lookup
lookup-make_json_object schema e name d proper =
    lookup-assign-deleted schema e [] name d ∙ elim (Bool-cases (is_valid_property schema name)) [
      | inl valid ↦ rw valid (missing_or (lookup name e))
      | inr invalid ↦ rw invalid (sym (proper name invalid))
    ]

pub partial_copy-make_json_object :
    (schema : ModelSchema) (e : Entity) (names : List String)
    → Distinct (keys e)
    → ((name : String) → is_valid_property schema name ≡ false → lookup name e ≡ none)
    → partial_copy (make_json_object (originals (deleted schema e))) names ≡ partial_copy e names
partial_copy-make_json_object schema e names d proper =
    partial_copy-All (make_json_object (originals (deleted schema e))) e names (
      All-of_contains
        (λ name. lookup name (make_json_object (originals (deleted schema e))) ≡ lookup name e)
        names (λ name inside. lookup-make_json_object schema e name d proper))
