-- ===== src/Orm/UniquedCache.antt =====
-- packages/database-postgres/src: customCache.ts over the package lru-cache, defaultEntityUniqueIndex.ts and
-- uniquedCache.ts. A key, a JSON text in the source, is the object that the text is of.
use gny.Prelude.{
  ℕ, zero, suc, ◌-◌, String, ◌≡◌, ap, Bool, true, ◌&&◌, Option, none, some, List, [], ◌∷◌, map,
  arith, if◌then◌else◌, ◌==◌, nat_eq, string_eq, option_eq, is_some, set,
}
use gny.Prelude.Int.{int_eq}
use gny.Prelude.Map.{Map, lookup, has, insert, erase}
pub mod Index
pub mod Indexed
pub mod Lookup
use gny.Orm.Entity.{Entity, property, partial_copy, is_truthy, json, entity_eq}
use gny.Orm.Schema.{ModelIndex}
use gny.Interfaces.{Result, ok, err, ◌>>=◌, or_throw}

-- What lru-cache gives. `new` takes the number of entries that it may hold, where `none` is infinity.
pub record Lru : Type 1 where
  pub Cache : Type 0
  pub new : Option ℕ → Cache
  pub get : Entity → Cache → Option Entity
  pub has : Entity → Cache → Bool
  pub set : Entity → Entity → Cache → Cache
  pub del : Entity → Cache → Cache
  pub entries : Cache → List (Entity × Entity)

-- What lru-cache documents of a cache that does not reach its maximum.
pub record IsLru (l : Lru) : Type 0 where
  pub get-new : (max : Option ℕ) (k : Entity) → l.get k (l.new max) ≡ none
  pub has-get : (k : Entity) (c : l.Cache) → l.has k c ≡ is_some (l.get k c)
  pub get-set :
      (j k e : Entity) (c : l.Cache)
      → l.get j (l.set k e c) ≡ (if k == j then some e else l.get j c)
  pub get-del :
      (j k : Entity) (c : l.Cache) → l.get j (l.del k c) ≡ (if k == j then none else l.get j c)

-- `DefaultEntityUniqueIndex`
pub record UniqueIndex : Type 0 where
  pub name : String
  pub fields : List String
  pub index_map : Map Entity Entity

-- `getIndexKey(partialCopy(obj, fields))`
abbrev pub index_key : List String → Entity → Entity
index_key fields e = json (partial_copy e fields)

-- `!fields.some(prop => !obj[prop])`
abbrev pub is_full : List String → Entity → Bool
is_full [] e = true
is_full (f ∷ fs) e = is_truthy (property f e) && is_full fs e

-- `add(r, key)`, for the properties r of the object
abbrev pub add : Entity → Entity → UniqueIndex → Result UniqueIndex
add e key i =
    if has (index_key i.fields e) i.index_map
    then err "unique value exists already"
    else ok (record i { index_map = insert (index_key i.fields e) key i.index_map })

-- `delete(r)`, for the properties r of the object
abbrev pub delete : Entity → UniqueIndex → UniqueIndex
delete e i = record i { index_map = erase (index_key i.fields e) i.index_map }

-- The indexes get the object in their order, until one throws.
abbrev pub add_all : Entity → Entity → List UniqueIndex → Result (Unit {0}) × List UniqueIndex
add_all e key [] = (ok tt, [])
add_all e key (i ∷ is) =
    let (result, rest) = add_all e key is in
    if is_full i.fields e
    then elim (add e key i) [
      | err message ↦ (err message, i ∷ is)
      | ok added ↦ (result, added ∷ rest)
    ]
    else (result, i ∷ rest)

module _ (l : Lru) where
  pub record UniquedCache : Type 0 where
    pub cache : l.Cache
    pub indexes : List UniqueIndex

  abbrev pub new_index : ModelIndex → UniqueIndex
  new_index i = record { name = i.name; fields = i.properties; index_map = [] }

  -- `constructor(cache, modelIndex)`
  abbrev pub new_cache : Option ℕ → List ModelIndex → UniquedCache
  new_cache max indexes = record { cache = l.new max; indexes = map new_index indexes }

  abbrev after_evit : Entity → UniquedCache → UniquedCache
  after_evit e c = record c { indexes = map (delete e) c.indexes }

  -- `evit(key)`: lru-cache calls `afterEvit` as it deletes, and `evit` calls it again.
  unfoldable pub evit : Entity → UniquedCache → UniquedCache
  evit key c = elim (l.get key c.cache) [
    | none ↦ c
    | some e ↦ after_evit e (after_evit e (record c { cache = l.del key c.cache }))
  ]

  -- The start of `set`: what is cached under the key goes.
  abbrev pub cleared : Entity → UniquedCache → UniquedCache
  cleared key c = if l.has key c.cache then evit key c else c

  -- `set(key, obj)`
  unfoldable pub set_entity : Entity → Entity → UniquedCache → Result (Unit {0}) × UniquedCache
  set_entity key e c =
      let c' = cleared key c in
      let (result, indexes) = add_all e key c'.indexes in
      (result, record { cache = l.set key e c'.cache; indexes = indexes })

  abbrev pub index_named : List UniqueIndex → String → Option UniqueIndex
  index_named [] name = none
  index_named (i ∷ is) name =
      let rest = index_named is name in if i.name == name then some i else rest

  -- `getUnique(index, value)`; an index that there is not throws in the source
  unfoldable pub get_unique : String → Entity → UniquedCache → Result (Option Entity)
  get_unique name value c = or_throw (index_named c.indexes name) "no such index" >>= λ i.
      elim (lookup (json value) i.index_map) [ none ↦ ok none | some key ↦ ok (l.get key c.cache) ]
