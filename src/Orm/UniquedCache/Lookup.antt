-- ===== src/Orm/UniquedCache/Lookup.antt =====
-- packages/database-postgres/src/uniquedCache.ts: `set` and `getUnique` as a caller sees them.
use gny.Prelude.{
  String, ◌≡◌, sym, ap, ◌∙◌, ◌↔◌, ◌⊎◌, true, Option, none, some, List, [], ◌∷◌, inl, inr, nat_eq,
  string_eq, option_eq, ◌==◌, Bool-cases, Option-cases,
}
use gny.Prelude.Int.{int_eq}
use gny.Prelude.Map.{lookup}
use mathlib.Core.Path.{subst}
use gny.Interfaces.{Result, ok, err, ok_inj, or_throw, ◌>>=◌}
use gny.Orm.Entity.{Entity, entity_eq, json}
use gny.Orm.UniquedCache.{
  Lru, IsLru, UniqueIndex, index_key, is_full, UniquedCache, set_entity, index_named, get_unique,
}
use gny.Orm.UniquedCache.Index.{Agrees, some_inj}
use gny.Orm.UniquedCache.Indexed.{
  Clashes, AllAgree, with_entry, entity_at, IsIndexed, entity_at-set_entity, set_entity_cases,
}

module _ (l : Lru) (laws : IsLru l) where
  -- `set` stores an entity, and keeps a unique index exact or throws. In a cache whose indexes have exactly the
  -- cached entities with all their fields, after `set` the key has the entity and every other key what it had;
  -- and either `set` went through and the indexes are exact again, or it threw and another entity that stayed
  -- cached has the same values of a unique index.
  pub set_entity_outcome :
      (key e : Entity) (c : UniquedCache l)
      → IsIndexed l laws c
      → ((k : Entity)
          → entity_at l laws (set_entity l key e c).1 k
            ≡ with_entry key (some e) (entity_at l laws c) k)
        × ((((set_entity l key e c).0 ≡ ok tt) × IsIndexed l laws (set_entity l key e c).1)
            ⊎ ((message : String) × ((set_entity l key e c).0 ≡ err message)
                × Clashes e (with_entry key none (entity_at l laws c)) c.indexes))
  set_entity_outcome key e c h =
      (entity_at-set_entity l laws key e c, set_entity_cases l laws key e c h)

  index_named-Agrees :
      (v : Entity → Option Entity) (is : List UniqueIndex) (name : String) (i : UniqueIndex)
      → AllAgree v is
      → index_named l is name ≡ some i
      → Agrees i v
  index_named-Agrees v [] name i h found = cc
  index_named-Agrees v (j ∷ is) name i (agrees, rest) found = elim (Bool-cases (j.name == name)) [
    | inl this ↦ subst (λ x. Agrees x v) (some_inj (rw this at found)) agrees
    | inr other ↦ index_named-Agrees v is name i rest (rw other at found)
  ]

  get_unique-eq :
      (name : String) (value : Entity) (i : UniqueIndex) (c : UniquedCache l)
      → index_named l c.indexes name ≡ some i
      → get_unique l name value c
        ≡ elim (lookup (json value) i.index_map) as (λ _. Result (Option Entity)) [
          | none ↦ ok none
          | some key ↦ ok (l.get key c.cache)
        ]
  unfolding get_unique
  get_unique-eq name value i c found =
      ap
        (λ (o : Option UniqueIndex). or_throw o "no such index" >>= λ (j : UniqueIndex).
          elim (lookup (json value) j.index_map) as (λ _. Result (Option Entity)) [
            | none ↦ ok none
            | some key ↦ ok (l.get key c.cache)
          ])
        found

  -- What `getUnique` gives for an index and a value, in a cache whose indexes are exact: the entity that is
  -- cached under some key and has all fields of the index, with these values, and only such a one.
  pub get_unique_iff :
      (name : String) (value e : Entity) (i : UniqueIndex) (c : UniquedCache l)
      → IsIndexed l laws c
      → index_named l c.indexes name ≡ some i
      → (get_unique l name value c ≡ ok (some e)) ↔ (
          (k : Entity) × (entity_at l laws c k ≡ some e)
          × (is_full i.fields e ≡ true)
          × (index_key i.fields e ≡ json value))
  get_unique_iff name value e i c h found =
      let agrees = index_named-Agrees (entity_at l laws c) c.indexes name i h found in
      rw (get_unique-eq name value i c found)
        (elim (Option-cases (lookup (json value) i.index_map)) [
          | inl missing ↦ rw missing (
            λ given. cc,
            λ (k, cached, full, named).
                cc (missing, (agrees (json value) k).1 (e, cached, full, named)),
          )
          | inr (key, there) ↦ rw there (
            λ given.
                let (d, cached, full, named) = (agrees (json value) key).0 there in
                let same = some_inj (sym cached ∙ ok_inj given) in
                (
                  key,
                  ok_inj given,
                  subst (λ x. is_full i.fields x ≡ true) same full,
                  subst (λ x. index_key i.fields x ≡ json value) same named,
                ),
            λ (k, cached, full, named).
                let same =
                  some_inj (sym there ∙ (agrees (json value) k).1 (e, cached, full, named)) in
                ap ok (ap (entity_at l laws c) same ∙ cached),
          )
        ])
