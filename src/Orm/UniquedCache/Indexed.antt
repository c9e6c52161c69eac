-- ===== src/Orm/UniquedCache/Indexed.antt =====
-- packages/database-postgres/src/uniquedCache.ts: the unique indexes against the entities that are cached.
use gny.Prelude.{
  String, ◌≡◌, refl, sym, ap, ◌∙◌, ◌⊎◌, inl, inr, true, false, Option, none, some, List, [], ◌∷◌,
  map, arith, if◌then◌else◌, ◌==◌, nat_eq, string_eq, option_eq, Bool-cases, Option-cases, is_some,
  All,
}
use gny.Prelude.Int.{int_eq}
use gny.Prelude.Map.{Map, lookup, erase, lookup-erase}
use gny.Interfaces.{ok, err}
use gny.Orm.Entity.{Entity, entity_eq, entity_eqb_iff}
use gny.Orm.UniquedCache.{
  Lru, IsLru, UniqueIndex, index_key, is_full, delete, add_all, UniquedCache, evit, cleared,
  set_entity,
}
use gny.Orm.UniquedCache.Index.{
  Agrees, Agrees-of_views, delete-Agrees, delete-Agrees_gone, add-Agrees, skip-Agrees,
}

-- An entity that another one shares all fields of an index with.
abbrev pub Clash : Entity → (Entity → Option Entity) → UniqueIndex → Type 0
Clash e v i =
    (is_full i.fields e ≡ true)
    × (k : Entity) × (d : Entity) × (v k ≡ some d)
    × (index_key i.fields d ≡ index_key i.fields e)

abbrev pub Clashes : Entity → (Entity → Option Entity) → List UniqueIndex → Type 0
Clashes e v [] = ⊥
Clashes e v (i ∷ is) = Clash e v i ⊎ Clashes e v is

abbrev pub AllAgree : (Entity → Option Entity) → List UniqueIndex → Type 0
AllAgree v = All (λ i. Agrees i v)

abbrev pub with_entry : Entity → Option Entity → (Entity → Option Entity) → Entity → Option Entity
with_entry key new v k = if key == k then new else v k

pub AllAgree-of_views :
    (v w : Entity → Option Entity) (is : List UniqueIndex)
    → ((k : Entity) → v k ≡ w k)
    → AllAgree v is
    → AllAgree w is
AllAgree-of_views v w [] same a = tt
AllAgree-of_views v w (i ∷ is) same (a, others) =
    (Agrees-of_views i v w same a, AllAgree-of_views v w is same others)

lookup-erase_self : (k : Entity) (m : Map Entity Entity) → lookup k (erase k m) ≡ none
lookup-erase_self k m =
    lookup-erase k k m ∙ ap (λ b. if b then none else lookup k m) ((entity_eqb_iff k k).1 refl)

delete_twice-AllAgree :
    (v : Entity → Option Entity) (key e : Entity) (is : List UniqueIndex)
    → v key ≡ some e
    → AllAgree v is
    → AllAgree (with_entry key none v) (map (delete e) (map (delete e) is))
delete_twice-AllAgree v key e [] here a = tt
delete_twice-AllAgree v key e (i ∷ is) here (a, others) = (
  delete-Agrees_gone (delete e i) (with_entry key none v) e
      (lookup-erase_self (index_key i.fields e) i.index_map) (delete-Agrees i v key e here a),
  delete_twice-AllAgree v key e is here others,
)

add_all_cases :
    (v : Entity → Option Entity) (key e : Entity) (is : List UniqueIndex)
    → v key ≡ none
    → AllAgree v is
    → (((add_all e key is).0 ≡ ok tt) × AllAgree (with_entry key (some e) v) (add_all e key is).1)
      ⊎ ((message : String) × ((add_all e key is).0 ≡ err message) × Clashes e v is)
add_all_cases v key e [] free a = inl (refl, tt)
add_all_cases v key e (i ∷ is) free (a, others) = elim (Bool-cases (is_full i.fields e)) [
  | inl full ↦ elim (Option-cases (lookup (index_key i.fields e) i.index_map)) [
    | inl fresh ↦ rw full (
        rw fresh (elim (add_all_cases v key e is free others) [
          | inl (done, rest) ↦ inl (done, (add-Agrees i v key e free full fresh a, rest))
          | inr (message, failed, clashes) ↦ inr (message, failed, inr clashes)
        ]))
    | inr (k, taken) ↦
        let (d, there, full', named) = (a (index_key i.fields e) k).0 taken in
        rw full
          (rw taken (inr ("unique value exists already", refl, inl (refl, k, d, there, named))))
  ]
  | inr partial ↦ rw partial (elim (add_all_cases v key e is free others) [
    | inl (done, rest) ↦ inl (done, (skip-Agrees i v key e free partial a, rest))
    | inr (message, failed, clashes) ↦ inr (message, failed, inr clashes)
  ])
]

same_without :
    (key k : Entity) (v : Entity → Option Entity) → v key ≡ none → v k ≡ with_entry key none v k
same_without key k v free = elim (Bool-cases (key == k)) [
  | inl this ↦ rw this (ap v (sym ((entity_eqb_iff key k).0 this)) ∙ free)
  | inr other ↦ rw other
]

absent : (o : Option Entity) → is_some o ≡ false → o ≡ none
absent none h = refl
absent (some e) h = cc

pub with_entry_twice :
    (key k : Entity) (e : Entity) (v : Entity → Option Entity)
    → with_entry key (some e) (with_entry key none v) k ≡ with_entry key (some e) v k
with_entry_twice key k e v = ground (arith, entity_eqb_iff key k)

Clashes-of_deleted :
    (e d : Entity) (v : Entity → Option Entity) (is : List UniqueIndex)
    → Clashes e v (map (delete d) is)
    → Clashes e v is
Clashes-of_deleted e d v [] h = elim h [ ]
Clashes-of_deleted e d v (i ∷ is) (inl clash) = inl clash
Clashes-of_deleted e d v (i ∷ is) (inr clashes) = inr (Clashes-of_deleted e d v is clashes)

Clashes-of_views :
    (e : Entity) (v w : Entity → Option Entity) (is : List UniqueIndex)
    → ((k : Entity) → v k ≡ w k)
    → Clashes e v is
    → Clashes e w is
Clashes-of_views e v w [] same h = elim h [ ]
Clashes-of_views e v w (i ∷ is) same (inl (full, k, d, there, named)) =
    inl (full, k, d, sym (same k) ∙ there, named)
Clashes-of_views e v w (i ∷ is) same (inr clashes) = inr (Clashes-of_views e v w is same clashes)

module _ (l : Lru) (laws : IsLru l) where
  -- The entity that is cached under a key.
  abbrev pub entity_at : UniquedCache l → Entity → Option Entity
  entity_at c k = l.get k c.cache

  -- Every index has the keys of the cached entities that have all its fields, and no others.
  abbrev pub IsIndexed : UniquedCache l → Type 0
  IsIndexed c = AllAgree (entity_at c) c.indexes

  -- `evit` takes away the entity under the key, and nothing else.
  pub entity_at-evit :
      (key : Entity) (c : UniquedCache l) (k : Entity)
      → entity_at (evit l key c) k ≡ with_entry key none (entity_at c) k
  unfolding evit
  entity_at-evit key c k = elim (Option-cases (l.get key c.cache)) [
    | inl absent ↦ rw (absent, evit) (same_without key k (entity_at c) absent)
    | inr (e, found) ↦ rw (found, evit) (laws.get-del k key c.cache)
  ]

  pub evit-IsIndexed : (key : Entity) (c : UniquedCache l) → IsIndexed c → IsIndexed (evit l key c)
  unfolding evit
  evit-IsIndexed key c h = elim (Option-cases (l.get key c.cache)) [
    | inl absent ↦ rw (absent, evit) h
    | inr (e, found) ↦
        rw (found, evit)
          (AllAgree-of_views (with_entry key none (entity_at c)) (λ k. l.get k (l.del key c.cache))
            (map (delete e) (map (delete e) c.indexes)) (λ k. sym (laws.get-del k key c.cache))
            (delete_twice-AllAgree (entity_at c) key e c.indexes found h))
  ]

  entity_at-cleared :
      (key : Entity) (c : UniquedCache l) (k : Entity)
      → entity_at (cleared l key c) k ≡ with_entry key none (entity_at c) k
  entity_at-cleared key c k = elim (Bool-cases (l.has key c.cache)) [
    | inl known ↦ rw known (entity_at-evit key c k)
    | inr unknown ↦ rw unknown (
        same_without key k (entity_at c)
          (absent (l.get key c.cache) (sym (laws.has-get key c.cache) ∙ unknown)))
  ]

  cleared-IsIndexed :
      (key : Entity) (c : UniquedCache l) → IsIndexed c → IsIndexed (cleared l key c)
  cleared-IsIndexed key c h = elim (Bool-cases (l.has key c.cache)) [
    | inl known ↦ rw known (evit-IsIndexed key c h)
    | inr unknown ↦ rw unknown h
  ]

  Clashes-of_cleared :
      (key e : Entity) (v : Entity → Option Entity) (c : UniquedCache l)
      → Clashes e v (cleared l key c).indexes
      → Clashes e v c.indexes
  unfolding evit
  Clashes-of_cleared key e v c h = elim (Bool-cases (l.has key c.cache)) [
    | inl known ↦ elim (Option-cases (l.get key c.cache)) [
      | inl missing ↦ rw (known, evit, missing) at h
      | inr (d, found) ↦
          Clashes-of_deleted e d v c.indexes
            (Clashes-of_deleted e d v (map (delete d) c.indexes) (rw (known, evit, found) at h))
    ]
    | inr unknown ↦ rw unknown at h
  ]

  pub entity_at-set_entity :
      (key e : Entity) (c : UniquedCache l) (k : Entity)
      → entity_at (set_entity l key e c).1 k ≡ with_entry key (some e) (entity_at c) k
  unfolding set_entity
  entity_at-set_entity key e c k =
      laws.get-set k key e (cleared l key c).cache
      ∙ ap (λ o. if key == k then some e else o) (entity_at-cleared key c k)
      ∙ with_entry_twice key k e (entity_at c)

  -- What `set` does to a cache whose indexes are right. It succeeds, and they are right again; or it throws, and
  -- another entity that stays cached has the values of a unique index.
  pub set_entity_cases :
      (key e : Entity) (c : UniquedCache l)
      → IsIndexed c
      → (((set_entity l key e c).0 ≡ ok tt) × IsIndexed (set_entity l key e c).1)
        ⊎ ((message : String) × ((set_entity l key e c).0 ≡ err message)
            × Clashes e (with_entry key none (entity_at c)) c.indexes)
  unfolding set_entity
  set_entity_cases key e c h =
      let c' = cleared l key c in
      elim (add_all_cases (entity_at c') key e c'.indexes
        (entity_at-cleared key c key
          ∙ ap (λ b. if b then none else entity_at c key) ((entity_eqb_iff key key).1 refl))
        (cleared-IsIndexed key c h)) [
          | inl (done, indexed) ↦ inl (
            done,
            AllAgree-of_views (with_entry key (some e) (entity_at c'))
                (λ k. l.get k (l.set key e c'.cache)) (add_all e key c'.indexes).1
                (λ k. sym (laws.get-set k key e c'.cache)) indexed,
          )
          | inr (message, failed, clashes) ↦ inr (
            message,
            failed,
            Clashes-of_cleared key e (with_entry key none (entity_at c)) c (
                Clashes-of_views e (entity_at c') (with_entry key none (entity_at c)) c'.indexes
                  (entity_at-cleared key c) clashes),
          )
        ]
