-- ===== src/Orm/EntityCache/Operations.antt =====
-- packages/database-postgres/src/lruEntityCache.ts: `put`, `evit` and `refreshCached` on the entities that are
-- cached.
use gny.Prelude.{
  String, ◌≡◌, refl, sym, ap, ◌∙◌, ◌⊎◌, inl, inr, Bool, Option, none, some, List, [], ◌∷◌, eq_iff,
  if◌then◌else◌, ◌==◌, nat_eq, string_eq, option_eq, Bool-cases, is_some, All,
}
use gny.Prelude.Int.{int_eq}
use gny.Prelude.Map.{Map, lookup}
use gny.Interfaces.{ok, err}
use gny.Orm.Entity.{Entity, json, entity_eq, entity_eqb_iff}
use gny.Orm.Schema.{ModelSchema, ModelIndex}
use gny.Orm.UniquedCache.{
  Lru, IsLru, UniqueIndex, index_key, is_full, UniquedCache, evit, set_entity,
}
use gny.Orm.UniquedCache.Index.{replace-Agrees, if_none}
use gny.Orm.UniquedCache.Indexed.{
  Clashes, AllAgree, AllAgree-of_views, with_entry, entity_at, entity_at-evit, evit-IsIndexed,
  entity_at-set_entity, set_entity_cases,
}
use gny.Orm.EntityCache.{Caches, get_entity, put, evit_entity, mutate}
use gny.Orm.EntityCache.View.{
  View, updated, NoTwins, FieldsOf, FieldsOf-evit, FieldsOf-set, view, IsCaches, cache_of,
  get_model_cache-ok, entity_at-cache_of, cache_of-IsIndexed, view-insert, insert-IsCaches,
}

NoTwins-Clashes :
    (key e : Entity) (v : Entity → Option Entity) (is : List UniqueIndex) (ms : List ModelIndex)
    → FieldsOf is ms
    → NoTwins (with_entry key (some e) v) ms
    → Clashes e (with_entry key none v) is
    → ⊥
NoTwins-Clashes key e v [] ms fields alone h = elim h [ ]
NoTwins-Clashes key e v (i ∷ is) [] fields alone h = elim fields [ ]
NoTwins-Clashes key e v (i ∷ is) (m ∷ ms) (same, fields) (alone, others) (inr clashes) =
    NoTwins-Clashes key e v is ms fields others clashes
NoTwins-Clashes key e v (i ∷ is) (m ∷ ms) (same, fields) (alone, others)
      (inl (full, k, d, there, named)) =
    let (apart, here) = if_none (key == k) (v k) d there in
    let self =
      alone key k e d (ap (λ b. if b then some e else v key) ((entity_eqb_iff key key).1 refl))
        (ap (λ b. if b then some e else v k) apart ∙ here) (ap (λ f. is_full f e) (sym same) ∙ full)
        (ap (λ f. index_key f e) (sym same) ∙ sym named ∙ ap (λ f. index_key f d) same) in
    cc (apart, (entity_eqb_iff key k).1 self)

has_then {ℓ} :
    {A : Type ℓ} (b : Bool) (o : Option A) → b ≡ is_some o → (if b then ok o else ok none) ≡ ok o
has_then b none h = rw h
has_then b (some a) h = rw h

view_entry :
    (l : Lru) (b : Bool) (o o' : Option Entity) (x : Option Entity)
    → o ≡ o'
    → (if b then o else x) ≡ (if b then o' else x)
view_entry l b o o' x h = ap (λ y. if b then y else x) h

updated_same :
    (model m : String) (key k : Entity) (new : Option Entity) (v : View)
    → (if model == m then with_entry key new (v model) k else v m k) ≡ updated model key new v m k
updated_same model m key k new v = elim (Bool-cases (model == m)) [
  | inl this ↦ rw (this, updated) (ap (λ x. with_entry key new (v x) k) ((eq_iff model m).0 this))
  | inr other ↦ rw (other, updated)
]

-- Two objects have the same values in the fields of every unique index.
abbrev pub KeepsKeys : Entity → Entity → List ModelIndex → Type 0
KeepsKeys d e ms = All (λ m. index_key m.properties d ≡ index_key m.properties e) ms

replace-AllAgree :
    (v : Entity → Option Entity) (key d e : Entity) (is : List UniqueIndex) (ms : List ModelIndex)
    → v key ≡ some d
    → FieldsOf is ms
    → KeepsKeys d e ms
    → AllAgree v is
    → AllAgree (with_entry key (some e) v) is
replace-AllAgree v key d e [] ms here fields keeps a = tt
replace-AllAgree v key d e (i ∷ is) [] here fields keeps a = elim fields [ ]
replace-AllAgree v key d e (i ∷ is) (m ∷ ms) here (same, fields) (keep, keeps) (a, others) = (
  replace-Agrees i v key d e here
      (ap (λ f. index_key f d) same ∙ keep ∙ ap (λ f. index_key f e) (sym same)) a,
  replace-AllAgree v key d e is ms here fields keeps others,
)

pub NoTwins-of_views :
    (v w : Entity → Option Entity) (ms : List ModelIndex)
    → ((k : Entity) → v k ≡ w k)
    → NoTwins v ms
    → NoTwins w ms
NoTwins-of_views v w [] same h = tt
NoTwins-of_views v w (m ∷ ms) same (alone, others) = (
  λ j k d e at_j at_k full named. alone j k d e (same j ∙ at_j) (same k ∙ at_k) full named,
  NoTwins-of_views v w ms same others,
)

module _ (l : Lru) (laws : IsLru l) (schemas : Map String ModelSchema) (schema : ModelSchema) where
  abbrev the_cache : Caches l schemas → UniquedCache l
  the_cache s = cache_of l laws schemas schema.model_name schema s

  at_cache :
      (s : Caches l schemas) (k : Entity)
      → entity_at l laws (the_cache s) k ≡ view l laws schemas s schema.model_name k
  at_cache s k = entity_at-cache_of l laws schemas schema.model_name schema s k

  module _ (known : lookup schema.model_name schemas ≡ some schema) where
    pub get_entity-eq :
        (key : Entity) (s : Caches l schemas)
        → get_entity l schemas schema.model_name key s
          ≡ ok (view l laws schemas s schema.model_name (json key))
    unfolding get_entity
    get_entity-eq key s = rw (get_model_cache-ok l laws schemas schema.model_name schema s known) (
        has_then (l.has (json key) (cache_of l laws schemas schema.model_name schema s).cache)
          (l.get (json key) (cache_of l laws schemas schema.model_name schema s).cache)
          (laws.has-get (json key) (cache_of l laws schemas schema.model_name schema s).cache)
        ∙ ap ok (entity_at-cache_of l laws schemas schema.model_name schema s (json key)))

    pub view-put :
        (key e : Entity) (s : Caches l schemas) (m : String) (k : Entity)
        → view l laws schemas (put l schemas schema.model_name key e s).1 m k
          ≡ updated schema.model_name (json key) (some e) (view l laws schemas s) m k
    unfolding put
    view-put key e s m k =
        rw (get_model_cache-ok l laws schemas schema.model_name schema s known, put)
          (view-insert l laws schemas schema.model_name (set_entity l (json key) e (the_cache s)).1
              s m k
            ∙ ap (λ o. if schema.model_name == m then o else view l laws schemas s m k)
                (entity_at-set_entity l laws (json key) e (the_cache s) k
                  ∙ ap (λ o. if json key == k then some e else o) (at_cache s k))
            ∙ updated_same schema.model_name m (json key) k (some e) (view l laws schemas s))

    pub put_cases :
        (key e : Entity) (s : Caches l schemas)
        → IsCaches l laws schemas s
        → (((put l schemas schema.model_name key e s).0 ≡ ok tt)
            × IsCaches l laws schemas (put l schemas schema.model_name key e s).1)
          ⊎ ((message : String) × ((put l schemas schema.model_name key e s).0 ≡ err message)
              × (NoTwins
                    (with_entry (json key) (some e) (view l laws schemas s schema.model_name))
                    schema.unique_indexes
                  → ⊥))
    unfolding put
    put_cases key e s h =
        rw (get_model_cache-ok l laws schemas schema.model_name schema s known, put)
          (let (indexed, fields) =
              cache_of-IsIndexed l laws schemas schema.model_name schema s known h in
            elim (set_entity_cases l laws (json key) e (the_cache s) indexed) [
              | inl (done, indexed') ↦ inl (
                done,
                insert-IsCaches l laws schemas schema.model_name schema
                    (set_entity l (json key) e (the_cache s)).1 s known indexed'
                    (FieldsOf-set l (json key) e (the_cache s) schema.unique_indexes fields) h,
              )
              | inr (message, failed, clashes) ↦ inr (
                message,
                failed,
                λ alone.
                    NoTwins-Clashes (json key) e (entity_at l laws (the_cache s))
                      (the_cache s).indexes schema.unique_indexes fields
                      (NoTwins-of_views
                        (λ k.
                          with_entry (json key) (some e) (view l laws schemas s schema.model_name)
                            k)
                        (with_entry (json key) (some e) (entity_at l laws (the_cache s)))
                        schema.unique_indexes
                        (λ k. ap (λ o. if json key == k then some e else o) (sym (at_cache s k)))
                        alone)
                      clashes,
              )
            ])

    pub view-evit_entity :
        (key : Entity) (s : Caches l schemas) (m : String) (k : Entity)
        → view l laws schemas (evit_entity l schemas schema.model_name key s).1 m k
          ≡ updated schema.model_name (json key) none (view l laws schemas s) m k
    unfolding evit_entity
    view-evit_entity key s m k =
        rw (get_model_cache-ok l laws schemas schema.model_name schema s known, evit_entity)
          (view-insert l laws schemas schema.model_name (evit l (json key) (the_cache s)) s m k
            ∙ ap (λ o. if schema.model_name == m then o else view l laws schemas s m k)
                (entity_at-evit l laws (json key) (the_cache s) k
                  ∙ ap (λ o. if json key == k then none else o) (at_cache s k))
            ∙ updated_same schema.model_name m (json key) k none (view l laws schemas s))

    pub evit_entity-IsCaches :
        (key : Entity) (s : Caches l schemas)
        → IsCaches l laws schemas s
        → ((evit_entity l schemas schema.model_name key s).0 ≡ ok tt)
          × IsCaches l laws schemas (evit_entity l schemas schema.model_name key s).1
    unfolding evit_entity
    evit_entity-IsCaches key s h =
        rw (get_model_cache-ok l laws schemas schema.model_name schema s known, evit_entity)
          (let (indexed, fields) =
              cache_of-IsIndexed l laws schemas schema.model_name schema s known h in
            (
              refl,
              insert-IsCaches l laws schemas schema.model_name schema
                  (evit l (json key) (the_cache s)) s known
                  (evit-IsIndexed l laws (json key) (the_cache s) indexed)
                  (FieldsOf-evit l (json key) (the_cache s) schema.unique_indexes fields) h,
            ))

    pub view-mutate :
        (key e : Entity) (s : Caches l schemas) (m : String) (k : Entity)
        → view l laws schemas (mutate l schemas schema.model_name key e s) m k
          ≡ updated schema.model_name (json key) (some e) (view l laws schemas s) m k
    unfolding mutate
    view-mutate key e s m k =
        rw (get_model_cache-ok l laws schemas schema.model_name schema s known, mutate)
          (view-insert l laws schemas schema.model_name
              (record (the_cache s) { cache = l.set (json key) e (the_cache s).cache }) s m k
            ∙ ap (λ o. if schema.model_name == m then o else view l laws schemas s m k)
                (laws.get-set k (json key) e (the_cache s).cache
                  ∙ ap (λ o. if json key == k then some e else o) (at_cache s k))
            ∙ updated_same schema.model_name m (json key) k (some e) (view l laws schemas s))

    -- A change of the object itself that leaves the fields of the unique indexes alone.
    pub mutate-IsCaches :
        (key d e : Entity) (s : Caches l schemas)
        → view l laws schemas s schema.model_name (json key) ≡ some d
        → KeepsKeys d e schema.unique_indexes
        → IsCaches l laws schemas s
        → IsCaches l laws schemas (mutate l schemas schema.model_name key e s)
    unfolding mutate
    mutate-IsCaches key d e s here keeps h =
        rw (get_model_cache-ok l laws schemas schema.model_name schema s known, mutate)
          (let (indexed, fields) =
              cache_of-IsIndexed l laws schemas schema.model_name schema s known h in
            insert-IsCaches l laws schemas schema.model_name schema
              (record (the_cache s) { cache = l.set (json key) e (the_cache s).cache }) s known
              (AllAgree-of_views (with_entry (json key) (some e) (entity_at l laws (the_cache s)))
                (λ k. l.get k (l.set (json key) e (the_cache s).cache)) (the_cache s).indexes
                (λ k. sym (laws.get-set k (json key) e (the_cache s).cache))
                (replace-AllAgree (entity_at l laws (the_cache s)) (json key) d e
                  (the_cache s).indexes schema.unique_indexes (at_cache s (json key) ∙ here) fields
                  keeps indexed))
              fields h)
