-- ===== src/Orm/UniquedCache/Index.antt =====
-- packages/database-postgres/src/defaultEntityUniqueIndex.ts: one unique index, against the entities that it is of.
use gny.Prelude.{
  ◌≤◌, String, ◌≡◌, refl, sym, ap, ◌∙◌, ◌↔◌, ◌⊎◌, inl, inr, Bool, true, false, ◌&&◌, Option, none,
  some, List, [], ◌∷◌, arith, if◌then◌else◌, ◌==◌, nat_eq, string_eq, option_eq, Bool-cases, length,
}
use gny.Prelude.Int.{int_eq}
use gny.Prelude.Map.{lookup, insert, lookup-insert, lookup-erase}
use gny.Orm.Entity.{
  undefined, Entity, property, is_truthy, value_eq, value_eqb_iff, entity_eq, entity_eqb_iff,
  json-partial_copy,
}
use gny.Orm.UniquedCache.{UniqueIndex, index_key, is_full, delete}

abbrev all_truthy : Entity → Bool
all_truthy [] = true
all_truthy ((name, v) ∷ e) = is_truthy v && all_truthy e

length-index_key-le : (fs : List String) (e : Entity) → length (index_key fs e) ≤ length fs
length-index_key-le [] e = omega arith
length-index_key-le (f ∷ fs) e = ground (arith, json-partial_copy e f fs, length-index_key-le fs e)

-- The key of an index tells whether the object has all its fields.
is_full-eq-key :
    (fs : List String) (e : Entity)
    → is_full fs e ≡ (length (index_key fs e) == length fs && all_truthy (index_key fs e))
is_full-eq-key [] e = refl
is_full-eq-key (f ∷ fs) e = ground (
  arith,
  json-partial_copy e f fs,
  is_full-eq-key fs e,
  length-index_key-le fs e,
  value_eqb_iff (property f e) undefined,
)

pub is_full_of_key :
    (fs : List String) (e d : Entity)
    → index_key fs e ≡ index_key fs d
    → is_full fs e ≡ is_full fs d
is_full_of_key fs e d h =
    is_full-eq-key fs e
    ∙ ap (λ k. length k == length fs && all_truthy k) h
    ∙ sym (is_full-eq-key fs d)

-- The index has the key of an entity exactly for the entities that have all its fields.
abbrev pub Holds : UniqueIndex → (Entity → Option Entity) → Entity → Entity → Type 0
Holds i v q k =
    (e : Entity) × (v k ≡ some e) × (is_full i.fields e ≡ true) × (index_key i.fields e ≡ q)

abbrev pub Agrees : UniqueIndex → (Entity → Option Entity) → Type 0
Agrees i v = (q k : Entity) → (lookup q i.index_map ≡ some k) ↔ Holds i v q k

pub Agrees-of_views :
    (i : UniqueIndex) (v w : Entity → Option Entity)
    → ((k : Entity) → v k ≡ w k)
    → Agrees i v
    → Agrees i w
Agrees-of_views i v w same a q k = (
  λ h. let (e, here, full, key) = (a q k).0 h in (e, sym (same k) ∙ here, full, key),
  λ (e, here, full, key). (a q k).1 (e, same k ∙ here, full, key),
)

pub if_none {ℓ} :
    {A : Type ℓ} (b : Bool) (o : Option A) (x : A)
    → (if b then none else o) ≡ some x
    → (b ≡ false) × (o ≡ some x)
if_none true o x h = cc
if_none false o x h = (refl, h)

pub if_some {ℓ} :
    {A : Type ℓ} (b : Bool) (o : Option A) (x y : A)
    → (if b then some x else o) ≡ some y
    → ((b ≡ true) × (x ≡ y)) ⊎ ((b ≡ false) × (o ≡ some y))
if_some true o x y h = inl (refl, cc)
if_some false o x y h = inr (refl, h)

pub not_eqb : (j k : Entity) → (j ≡ k → ⊥) → (j == k) ≡ false
not_eqb j k h = elim (Bool-cases (j == k)) [
  | inl same ↦ absurd (h ((entity_eqb_iff j k).0 same))
  | inr other ↦ other
]

pub some_inj {ℓ} : {A : Type ℓ} {e d : A} → some e ≡ some d → e ≡ d
some_inj h = cc

-- An entity goes, and its key with it.
pub delete-Agrees :
    (i : UniqueIndex) (v : Entity → Option Entity) (key e : Entity)
    → v key ≡ some e
    → Agrees i v
    → Agrees (delete e i) (λ k. if key == k then none else v k)
delete-Agrees i v key e here a q k = (
  λ h.
      let (other, found) =
        if_none (index_key i.fields e == q) (lookup q i.index_map) k
          (sym (lookup-erase q (index_key i.fields e) i.index_map) ∙ h) in
      let (e', there, full, named) = (a q k).0 found in
      let apart = not_eqb key k (λ same.
        let e-eq = some_inj (sym here ∙ ap v same ∙ there) in
        cc (
          other,
          (entity_eqb_iff (index_key i.fields e) q).1 (ap (index_key i.fields) e-eq ∙ named),
        )) in
      (e', ap (λ b. if b then none else v k) apart ∙ there, full, named),
  λ (e', gone, full, named).
      let (apart, there) = if_none (key == k) (v k) e' gone in
      let found = (a q k).1 (e', there, full, named) in
      let other = not_eqb (index_key i.fields e) q (λ same.
        let full' = is_full_of_key i.fields e e' (same ∙ sym named) ∙ full in
        let at_key = (a q key).1 (e, here, full', same) in
        cc (apart, (entity_eqb_iff key k).1 (some_inj (sym at_key ∙ found)))) in
      lookup-erase q (index_key i.fields e) i.index_map
      ∙ ap (λ b. if b then none else lookup q i.index_map) other
      ∙ found,
)

-- A key that is gone can be deleted again.
pub delete-Agrees_gone :
    (i : UniqueIndex) (v : Entity → Option Entity) (e : Entity)
    → lookup (index_key i.fields e) i.index_map ≡ none
    → Agrees i v
    → Agrees (delete e i) v
delete-Agrees_gone i v e gone a q k = (
  λ h.
      let (other, found) =
        if_none (index_key i.fields e == q) (lookup q i.index_map) k
          (sym (lookup-erase q (index_key i.fields e) i.index_map) ∙ h) in
      (a q k).0 found,
  λ held.
      let found = (a q k).1 held in
      let other =
        not_eqb (index_key i.fields e) q
          (λ same. cc (sym gone ∙ ap (λ p. lookup p i.index_map) same ∙ found)) in
      lookup-erase q (index_key i.fields e) i.index_map
      ∙ ap (λ b. if b then none else lookup q i.index_map) other
      ∙ found,
)

-- Where the key was free, another key's entity is still there.
keep :
    (key k : Entity) (v : Entity → Option Entity) (new : Option Entity) (e : Entity)
    → v key ≡ none
    → v k ≡ some e
    → (if key == k then new else v k) ≡ some e
keep key k v new e free there =
    ap (λ b. if b then new else v k) (not_eqb key k (λ same. cc (sym free ∙ ap v same ∙ there)))
    ∙ there

-- A new entity with all fields of the index comes in under a key that is free.
pub add-Agrees :
    (i : UniqueIndex) (v : Entity → Option Entity) (key e : Entity)
    → v key ≡ none
    → is_full i.fields e ≡ true
    → lookup (index_key i.fields e) i.index_map ≡ none
    → Agrees i v
    → Agrees
        (record i { index_map = insert (index_key i.fields e) key i.index_map })
        (λ k. if key == k then some e else v k)
add-Agrees i v key e free full fresh a q k = (
  λ h.
      elim (if_some (index_key i.fields e == q) (lookup q i.index_map) key k
        (sym (lookup-insert q (index_key i.fields e) key i.index_map) ∙ h)) [
          | inl (same, this) ↦ (
            e,
            ap (λ b. if b then some e else v k) ((entity_eqb_iff key k).1 this),
            full,
            (entity_eqb_iff (index_key i.fields e) q).0 same,
          )
          | inr (other, found) ↦
              let (e', there, full', named) = (a q k).0 found in
              (e', keep key k v (some e) e' free there, full', named)
        ],
  λ (e', seen, full', named).
      lookup-insert q (index_key i.fields e) key i.index_map
      ∙ elim (if_some (key == k) (v k) e e' seen) [
        | inl (this, same) ↦
            ap (λ b. if b then some key else lookup q i.index_map)
              ((entity_eqb_iff (index_key i.fields e) q).1 (ap (index_key i.fields) same ∙ named))
            ∙ ap some ((entity_eqb_iff key k).0 this)
        | inr (apart, there) ↦
            let found = (a q k).1 (e', there, full', named) in
            let other =
              not_eqb (index_key i.fields e) q
                (λ same. cc (sym fresh ∙ ap (λ p. lookup p i.index_map) same ∙ found)) in
            ap (λ b. if b then some key else lookup q i.index_map) other ∙ found
      ],
)

-- An entity that lacks a field of the index is not in it.
pub skip-Agrees :
    (i : UniqueIndex) (v : Entity → Option Entity) (key e : Entity)
    → v key ≡ none
    → is_full i.fields e ≡ false
    → Agrees i v
    → Agrees i (λ k. if key == k then some e else v k)
skip-Agrees i v key e free partial a q k = (
  λ found.
      let (e', there, full, named) = (a q k).0 found in
      (e', keep key k v (some e) e' free there, full, named),
  λ (e', seen, full, named). elim (if_some (key == k) (v k) e e' seen) [
    | inl (this, same) ↦ cc (sym partial ∙ ap (is_full i.fields) same ∙ full)
    | inr (apart, there) ↦ (a q k).1 (e', there, full, named)
  ],
)

-- An entity is replaced by one with the same values in the index's fields.
pub replace-Agrees :
    (i : UniqueIndex) (v : Entity → Option Entity) (key d e : Entity)
    → v key ≡ some d
    → index_key i.fields d ≡ index_key i.fields e
    → Agrees i v
    → Agrees i (λ k. if key == k then some e else v k)
replace-Agrees i v key d e here same a q k = (
  λ found.
      let (x, there, full, named) = (a q k).0 found in
      elim (Bool-cases (key == k)) [
        | inl this ↦
            let x-eq = some_inj (sym here ∙ ap v ((entity_eqb_iff key k).0 this) ∙ there) in
            (
              e,
              ap (λ b. if b then some e else v k) this,
              sym (is_full_of_key i.fields d e same) ∙ ap (is_full i.fields) x-eq ∙ full,
              sym same ∙ ap (index_key i.fields) x-eq ∙ named,
            )
        | inr apart ↦ (x, ap (λ b. if b then some e else v k) apart ∙ there, full, named)
      ],
  λ (x, seen, full, named). elim (if_some (key == k) (v k) e x seen) [
    | inl (this, x-eq) ↦
        (a q key).1 (
          d,
          here,
          is_full_of_key i.fields d e same ∙ ap (is_full i.fields) x-eq ∙ full,
          same ∙ ap (index_key i.fields) x-eq ∙ named,
        )
        ∙ ap some ((entity_eqb_iff key k).0 this)
    | inr (apart, there) ↦ (a q k).1 (x, there, full, named)
  ],
)
