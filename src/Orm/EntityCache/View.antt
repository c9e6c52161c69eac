-- ===== src/Orm/EntityCache/View.antt =====
-- packages/database-postgres/src/lruEntityCache.ts: which entity is cached for a model under a key, and what the
-- operations do to that.
use gny.Prelude.{
  String, ◌≡◌, refl, sym, ap, ◌∙◌, inl, inr, Bool, true, false, Option, none, some, List, [], ◌∷◌,
  map, eq_iff, if◌then◌else◌, ◌==◌, nat_eq, string_eq, option_eq, Bool-cases, Option-cases,
}
use gny.Prelude.Int.{int_eq}
use gny.Prelude.Map.{Map, lookup, insert, lookup-insert}
use mathlib.Core.Path.{subst}
use gny.Interfaces.{ok}
use gny.Orm.Entity.{Entity, entity_eq}
use gny.Orm.Schema.{ModelSchema, ModelIndex}
use gny.Orm.UniquedCache.{
  Lru, IsLru, UniqueIndex, delete, new_index, index_key, is_full, add_all, UniquedCache, new_cache,
  evit, cleared, set_entity,
}
use gny.Orm.UniquedCache.Index.{if_some, some_inj}
use gny.Orm.UniquedCache.Indexed.{AllAgree, with_entry, entity_at, IsIndexed}
use gny.Orm.EntityCache.{get_max_cached_count, Caches, get_model_cache}

abbrev pub View : Type 0
View = String → Entity → Option Entity

abbrev pub updated : String → Entity → Option Entity → View → View
updated model key new v m k = if model == m then with_entry key new (v m) k else v m k

-- No two cached entities share all fields of a unique index.
abbrev pub NoTwins : (Entity → Option Entity) → List ModelIndex → Type 0
NoTwins v [] = Unit
NoTwins v (i ∷ is) =
    ((j k d e : Entity)
      → v j ≡ some d
      → v k ≡ some e
      → is_full i.properties d ≡ true
      → index_key i.properties d ≡ index_key i.properties e
      → j ≡ k)
    × NoTwins v is

-- The indexes of a cache are those of its model.
abbrev pub FieldsOf : List UniqueIndex → List ModelIndex → Type 0
FieldsOf [] [] = Unit
FieldsOf (i ∷ is) (m ∷ ms) = (i.fields ≡ m.properties) × FieldsOf is ms
FieldsOf is ms = ⊥

FieldsOf-deleted :
    (e : Entity) (is : List UniqueIndex) (ms : List ModelIndex)
    → FieldsOf is ms
    → FieldsOf (map (delete e) is) ms
FieldsOf-deleted e [] [] h = tt
FieldsOf-deleted e (i ∷ is) (m ∷ ms) (h, hs) = (h, FieldsOf-deleted e is ms hs)
FieldsOf-deleted e [] (m ∷ ms) h = elim h [ ]
FieldsOf-deleted e (i ∷ is) [] h = elim h [ ]

FieldsOf-added :
    (key e : Entity) (is : List UniqueIndex) (ms : List ModelIndex)
    → FieldsOf is ms
    → FieldsOf (add_all e key is).1 ms
FieldsOf-added key e [] [] h = tt
FieldsOf-added key e [] (m ∷ ms) h = elim h [ ]
FieldsOf-added key e (i ∷ is) [] h = elim h [ ]
FieldsOf-added key e (i ∷ is) (m ∷ ms) (h, hs) = elim (Bool-cases (is_full i.fields e)) [
  | inl full ↦ elim (Option-cases (lookup (index_key i.fields e) i.index_map)) [
    | inl fresh ↦ rw full (rw fresh (h, FieldsOf-added key e is ms hs))
    | inr (k, taken) ↦ rw full (rw taken (h, hs))
  ]
  | inr partial ↦ rw partial (h, FieldsOf-added key e is ms hs)
]

module _ (l : Lru) where
  FieldsOf-new : (ms : List ModelIndex) → FieldsOf (map (new_index l) ms) ms
  FieldsOf-new [] = tt
  FieldsOf-new (m ∷ ms) = (refl, FieldsOf-new ms)

  pub FieldsOf-evit :
      (key : Entity) (c : UniquedCache l) (ms : List ModelIndex)
      → FieldsOf c.indexes ms
      → FieldsOf (evit l key c).indexes ms
  unfolding evit
  FieldsOf-evit key c ms h = elim (Option-cases (l.get key c.cache)) [
    | inl missing ↦ rw (missing, evit) h
    | inr (e, found) ↦
        rw (found, evit)
          (FieldsOf-deleted e (map (delete e) c.indexes) ms (FieldsOf-deleted e c.indexes ms h))
  ]

  pub FieldsOf-set :
      (key e : Entity) (c : UniquedCache l) (ms : List ModelIndex)
      → FieldsOf c.indexes ms
      → FieldsOf (set_entity l key e c).1.indexes ms
  unfolding set_entity
  FieldsOf-set key e c ms h =
      FieldsOf-added key e (cleared l key c).indexes ms (elim (Bool-cases (l.has key c.cache)) [
        | inl known ↦ rw known (FieldsOf-evit key c ms h)
        | inr unknown ↦ rw unknown h
      ])

pub new-AllAgree :
    (l : Lru) (v : Entity → Option Entity) (ms : List ModelIndex)
    → ((k : Entity) → v k ≡ none)
    → AllAgree v (map (new_index l) ms)
unfolding lookup
new-AllAgree l v [] empty = tt
new-AllAgree l v (m ∷ ms) empty = (
  (λ q k. (λ h. cc, λ (e, there, full, named). cc (sym (empty k) ∙ there))),
  new-AllAgree l v ms empty,
)

module _ (l : Lru) (laws : IsLru l) (schemas : Map String ModelSchema) where
  abbrev pub view : Caches l schemas → View
  view s model k = elim (lookup model s) [ none ↦ none | some c ↦ l.get k c.cache ]

  view_of_if :
      (b : Bool) (c : UniquedCache l) (o : Option (UniquedCache l)) (k : Entity)
      → elim (if b then some c else o) as (λ _. Option Entity) [
        | none ↦ none
        | some d ↦ l.get k d.cache
      ]
        ≡ (if b
            then l.get k c.cache
            else elim o as (λ _. Option Entity) [ none ↦ none | some d ↦ l.get k d.cache ])
  view_of_if true c o k = refl
  view_of_if false c o k = refl

  -- Every cache is of a model that there is, has its indexes, and they are right.
  abbrev pub IsCaches : Caches l schemas → Type 0
  IsCaches s =
      (model : String) (c : UniquedCache l)
      → lookup model s ≡ some c
      → (schema : ModelSchema) × (lookup model schemas ≡ some schema)
        × IsIndexed l laws c
        × FieldsOf c.indexes schema.unique_indexes

  -- The cache that `getModelCache` gives for a model that there is.
  abbrev pub cache_of : String → ModelSchema → Caches l schemas → UniquedCache l
  cache_of model schema s = elim (lookup model s) [
    | none ↦ new_cache l (get_max_cached_count schema.max_cached_count) schema.unique_indexes
    | some c ↦ c
  ]

  pub get_model_cache-ok :
      (model : String) (schema : ModelSchema) (s : Caches l schemas)
      → lookup model schemas ≡ some schema
      → get_model_cache l schemas model s ≡ ok (cache_of model schema s)
  unfolding get_model_cache
  get_model_cache-ok model schema s known =
      rw (known, get_model_cache)
        (elim (Option-cases (lookup model s)) [
          | inl missing ↦ rw (missing, cache_of)
          | inr (c, found) ↦ rw (found, cache_of)
        ])

  pub entity_at-cache_of :
      (model : String) (schema : ModelSchema) (s : Caches l schemas) (k : Entity)
      → entity_at l laws (cache_of model schema s) k ≡ view s model k
  entity_at-cache_of model schema s k = elim (Option-cases (lookup model s)) [
    | inl missing ↦
        rw (missing, cache_of, view) (laws.get-new (get_max_cached_count schema.max_cached_count) k)
    | inr (c, found) ↦ rw (found, cache_of, view)
  ]

  pub cache_of-IsIndexed :
      (model : String) (schema : ModelSchema) (s : Caches l schemas)
      → lookup model schemas ≡ some schema
      → IsCaches s
      → IsIndexed l laws (cache_of model schema s)
        × FieldsOf (cache_of model schema s).indexes schema.unique_indexes
  cache_of-IsIndexed model schema s known h = elim (Option-cases (lookup model s)) [
    | inl missing ↦
        rw (missing, cache_of)
          (
            new-AllAgree l (λ k. l.get k (l.new (get_max_cached_count schema.max_cached_count)))
                schema.unique_indexes (laws.get-new (get_max_cached_count schema.max_cached_count)),
            FieldsOf-new l schema.unique_indexes,
          )
    | inr (c, found) ↦
        let (schema', known', indexed, fields) = h model c found in
        let same = some_inj (sym known' ∙ known) in
        rw (found, cache_of) (indexed, subst (λ x. FieldsOf c.indexes x.unique_indexes) same fields)
  ]

  pub view-insert :
      (model : String) (c : UniquedCache l) (s : Caches l schemas) (m : String) (k : Entity)
      → view (insert model c s) m k ≡ (if model == m then l.get k c.cache else view s m k)
  view-insert model c s m k =
      ap (λ o. elim o as (λ _. Option Entity) [ none ↦ none | some d ↦ l.get k d.cache ])
        (lookup-insert m model c s)
      ∙ view_of_if (model == m) c (lookup m s) k

  pub insert-IsCaches :
      (model : String) (schema : ModelSchema) (c : UniquedCache l) (s : Caches l schemas)
      → lookup model schemas ≡ some schema
      → IsIndexed l laws c
      → FieldsOf c.indexes schema.unique_indexes
      → IsCaches s
      → IsCaches (insert model c s)
  insert-IsCaches model schema c s known indexed fields h m d found =
      elim (if_some (model == m) (lookup m s) c d (sym (lookup-insert m model c s) ∙ found)) [
        | inl (this, same) ↦ (
          schema,
          ap (λ x. lookup x schemas) (sym ((eq_iff model m).0 this)) ∙ known,
          subst (IsIndexed l laws) same indexed,
          subst (λ x. FieldsOf x.indexes schema.unique_indexes) same fields,
        )
        | inr (other, there) ↦ h m d there
      ]
