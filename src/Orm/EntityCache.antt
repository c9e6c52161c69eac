-- ===== src/Orm/EntityCache.antt =====
-- packages/database-postgres/src/lruEntityCache.ts, `class LRUEntityCache`: a cache for each model, made when it is
-- first used. A call that throws leaves what it did, so a call returns the caches beside its result.
use gny.Prelude.{
  ℕ, zero, suc, String, ap, not, Option, none, some, List, [], ◌∷◌, arith, ltb, if◌then◌else◌,
  nat_eq, string_eq, option_eq, set,
}
use gny.Prelude.Int.{int_eq}
use gny.Prelude.Map.{Map, lookup, has, insert}
pub mod View
pub mod Operations
pub mod Refresh
use gny.Interfaces.{Result, ok, err, ◌>>=◌, or_throw}
use gny.Orm.Entity.{Value, Entity, property, json, entity_eq}
use gny.Orm.Schema.{ModelSchema, MaxCached, unset, infinity, count, has_unique_property}
use gny.Orm.UniquedCache.{Lru, UniquedCache, new_cache, evit, set_entity, get_unique}

-- `PropertyValue`
pub record PropertyValue : Type 0 where
  pub name : String
  pub value : Value

abbrev pub min_cached_count : ℕ
min_cached_count = 100

abbrev pub default_max_cached_count : ℕ
default_max_cached_count = 50000

-- `getMaxCachedCount(schema)`; `none` stands for infinity.
abbrev pub get_max_cached_count : MaxCached → Option ℕ
get_max_cached_count unset = some default_max_cached_count
get_max_cached_count infinity = none
get_max_cached_count (count zero) = some default_max_cached_count
get_max_cached_count (count (suc n)) =
    some (if ltb (suc n) min_cached_count then min_cached_count else suc n)

-- `data.forEach(attr => element[attr.name] = attr.value)`
abbrev pub assign : List PropertyValue → Entity → Entity
assign [] e = e
assign (p ∷ ps) e = assign ps (insert p.name p.value e)

abbrev pub names_of : List PropertyValue → List String
names_of [] = []
names_of (p ∷ ps) = p.name ∷ names_of ps

module _ (l : Lru) (schemas : Map String ModelSchema) where
  abbrev pub Caches : Type 0
  Caches = Map String (UniquedCache l)

  -- `getModelCache(model)`, with `registerModel` and `createCache`. That a cache with nothing in it is kept
  -- shows nowhere.
  unfoldable pub get_model_cache : String → Caches → Result (UniquedCache l)
  get_model_cache model s =
      or_throw (lookup model schemas) "Model schema does not exists" >>= λ schema.
      elim (lookup model s) [
        | none ↦
            ok (new_cache l (get_max_cached_count schema.max_cached_count) schema.unique_indexes)
        | some c ↦ ok c
      ]

  -- `get(model, key)`
  unfoldable pub get_entity : String → Entity → Caches → Result (Option Entity)
  get_entity model key s = get_model_cache model s >>= λ c.
      if l.has (json key) c.cache then ok (l.get (json key) c.cache) else ok none

  -- `getUnique(model, indexName, value)`
  unfoldable pub get_unique_entity : String → String → Entity → Caches → Result (Option Entity)
  get_unique_entity model index value s = get_model_cache model s >>= get_unique l index value

  -- `put(model, key, data)`
  unfoldable pub put : String → Entity → Entity → Caches → Result (Unit {0}) × Caches
  put model key e s = elim (get_model_cache model s) [
    | err message ↦ (err message, s)
    | ok c ↦ let (result, c') = set_entity l (json key) e c in (result, insert model c' s)
  ]

  -- `evit(model, id)`
  unfoldable pub evit_entity : String → Entity → Caches → Result (Unit {0}) × Caches
  evit_entity model key s = elim (get_model_cache model s) [
    | err message ↦ (err message, s)
    | ok c ↦ (ok tt, insert model (evit l (json key) c) s)
  ]

  -- A change of the cached object itself, which no index sees.
  unfoldable pub mutate : String → Entity → Entity → Caches → Caches
  mutate model key e s = elim (get_model_cache model s) [
    | err message ↦ s
    | ok c ↦ insert model (record c { cache = l.set (json key) e c.cache }) s
  ]

  abbrev pub replace :
      ModelSchema
      → String
      → Entity
      → List PropertyValue
      → Entity
      → Caches
      → Result (Unit {0}) × Caches
  replace schema model key values e s =
      if has_unique_property schema (names_of values)
      then put model key (assign values e) (evit_entity model key s).1
      else (ok tt, mutate model key (assign values e) s)

  -- `refreshCached(model, value, data)`, whose Boolean result nobody reads
  unfoldable pub refresh_cached :
      String → Entity → List PropertyValue → Caches → Result (Unit {0}) × Caches
  refresh_cached model key values s = elim (get_entity model key s) [
    | err message ↦ (err message, s)
    | ok none ↦ (ok tt, s)
    | ok (some e) ↦ elim (lookup model schemas) [
      | none ↦ (err "Model schema does not exists", s)
      | some schema ↦ replace schema model key values e s
    ]
  ]

  -- `clear()`
  abbrev pub clear_all : Caches → Caches
  clear_all s = []
