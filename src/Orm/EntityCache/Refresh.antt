-- ===== src/Orm/EntityCache/Refresh.antt =====
-- packages/database-postgres/src/lruEntityCache.ts: `refreshCached` on the entities that are cached.
use gny.Prelude.{
  String, ◌≡◌, refl, sym, ap, ◌∙◌, ◌⊎◌, inl, inr, Bool, true, false, ◌||◌, Option, none, some, List,
  [], ◌∷◌, arith, eq_iff, if◌then◌else◌, ◌==◌, nat_eq, string_eq, option_eq, Bool-cases, All,
  contains, contains-append,
}
use gny.Prelude.Int.{int_eq}
use gny.Prelude.Map.{Map, lookup, insert}
use gny.Interfaces.{ok, err}
use gny.Orm.Entity.{
  Entity, property, property-insert, json, entity_eq, entity_eqb_iff, json-partial_copy-All,
}
use gny.Orm.Schema.{ModelSchema, ModelIndex, has_unique_property, index_properties}
use gny.Orm.UniquedCache.{Lru, IsLru}
use gny.Orm.UniquedCache.Indexed.{with_entry, with_entry_twice}
use gny.Orm.EntityCache.{
  PropertyValue, assign, names_of, Caches, evit_entity, replace, refresh_cached,
}
use gny.Orm.EntityCache.View.{View, updated, NoTwins, view, IsCaches}
use gny.Orm.EntityCache.Operations.{
  KeepsKeys, NoTwins-of_views, get_entity-eq, view-put, put_cases, view-evit_entity,
  evit_entity-IsCaches, view-mutate, mutate-IsCaches,
}

pub property-assign_other :
    (name : String) (values : List PropertyValue) (e : Entity)
    → contains (names_of values) name ≡ false
    → property name (assign values e) ≡ property name e
property-assign_other name [] e h = refl
property-assign_other name (v ∷ vs) e h =
    property-assign_other name vs (insert v.name v.value e) (ground arith)
    ∙ property-insert name v.name v.value e
    ∙ ap (λ b. if b then v.value else property name e) {x = v.name == name} {y = false}
        (ground arith)

pub All-of_contains :
    (P : String → Type 0) (names : List String)
    → ((name : String) → contains names name ≡ true → P name)
    → All P names
All-of_contains P [] h = tt
All-of_contains P (n ∷ names) h = (
  h n (ap (λ b. b || contains names n) ((eq_iff n n).1 refl)),
  All-of_contains P names (λ name inside. h name (ground arith)),
)

or_true : (a b : Bool) → b ≡ true → (a || b) ≡ true
or_true true b h = refl
or_true false b h = h

pub or_false : (a b : Bool) → (a || b) ≡ false → (a ≡ false) × (b ≡ false)
or_false true b h = cc
or_false false b h = (refl, h)

pub KeepsKeys-of_properties :
    (d e : Entity) (ms : List ModelIndex)
    → ((name : String)
        → contains (index_properties ms) name ≡ true
        → property name d ≡ property name e)
    → KeepsKeys d e ms
KeepsKeys-of_properties d e [] h = tt
KeepsKeys-of_properties d e (m ∷ ms) h = (
  json-partial_copy-All d e m.properties (
      All-of_contains (λ name. property name d ≡ property name e) m.properties
        (λ name inside. h name (
          contains-append m.properties (index_properties ms) name
          ∙ ap (λ b. b || contains (index_properties ms) name) inside))),
  KeepsKeys-of_properties d e ms (λ name inside. h name (
      contains-append m.properties (index_properties ms) name
      ∙ or_true (contains m.properties name) (contains (index_properties ms) name) inside)),
)

not_named :
    (schema : ModelSchema) (names : List String) (name : String)
    → has_unique_property schema names ≡ false
    → contains schema.unique_properties name ≡ true
    → contains names name ≡ false
not_named schema [] name h inside = refl
not_named schema (n ∷ names) name h inside =
    let (fresh, rest) =
      or_false (contains schema.unique_properties n) (has_unique_property schema names) h in
    elim (Bool-cases (n == name)) [
      | inl same ↦ cc (
          sym fresh
          ∙ ap (λ x. contains schema.unique_properties x) ((eq_iff n name).0 same)
          ∙ inside)
      | inr other ↦
          ap (λ b. b || contains names name) other ∙ not_named schema names name rest inside
    ]

pub updated_twice :
    (model m : String) (key k : Entity) (new old : Option Entity) (v : View)
    → updated model key new (updated model key old v) m k ≡ updated model key new v m k
updated_twice model m key k new old v = ground (arith, entity_eqb_iff key k, eq_iff model m)

pub updated_cong :
    (model m : String) (key k : Entity) (new : Option Entity) (v w : View)
    → ((m : String) (k : Entity) → v m k ≡ w m k)
    → updated model key new v m k ≡ updated model key new w m k
updated_cong model m key k new v w h =
    ap (λ o. if model == m then if key == k then new else o else v m k) (h m k)
    ∙ ap (λ o. if model == m then with_entry key new (w m) k else o) (h m k)

pub updated_self :
    (model : String) (key k : Entity) (new : Option Entity) (v : View)
    → updated model key new v model k ≡ with_entry key new (v model) k
updated_self model key k new v =
    ap (λ b. if b then with_entry key new (v model) k else v model k) ((eq_iff model model).1 refl)

module _ (l : Lru) (laws : IsLru l) (schemas : Map String ModelSchema) (schema : ModelSchema)
    (known : lookup schema.model_name schemas ≡ some schema)
    (listed : schema.unique_properties ≡ index_properties schema.unique_indexes) (key d : Entity)
    (s : Caches l schemas)
    (here : view l laws schemas s schema.model_name (json key) ≡ some d) where
  abbrev evicted : Caches l schemas
  evicted = (evit_entity l schemas schema.model_name key s).1

  still :
      (k e : Entity)
      → with_entry (json key) (some e) (view l laws schemas evicted schema.model_name) k
        ≡ with_entry (json key) (some e) (view l laws schemas s schema.model_name) k
  still k e =
      ap (λ o. if json key == k then some e else o)
        (view-evit_entity l laws schemas schema known key s schema.model_name k
          ∙ updated_self schema.model_name (json key) k none (view l laws schemas s))
      ∙ with_entry_twice (json key) k e (view l laws schemas s schema.model_name)

  refresh_cached-eq :
      (values : List PropertyValue)
      → refresh_cached l schemas schema.model_name key values s
        ≡ replace l schemas schema schema.model_name key values d s
  unfolding refresh_cached
  refresh_cached-eq values =
      rw (get_entity-eq l laws schemas schema known key s ∙ ap ok here, refresh_cached) (rw known)

  -- The cached object has the new values.
  pub view-refresh_cached :
      (values : List PropertyValue) (m : String) (k : Entity)
      → view l laws schemas (refresh_cached l schemas schema.model_name key values s).1 m k
        ≡ updated schema.model_name (json key) (some (assign values d)) (view l laws schemas s) m k
  view-refresh_cached values m k =
      ap (λ r. view l laws schemas r.1 m k) (refresh_cached-eq values)
      ∙ elim (Bool-cases (has_unique_property schema (names_of values))) [
        | inl unique ↦
            rw (unique, replace)
              (view-put l laws schemas schema known key (assign values d) evicted m k
                ∙ updated_cong schema.model_name m (json key) k (some (assign values d))
                    (view l laws schemas evicted)
                    (updated schema.model_name (json key) none (view l laws schemas s))
                    (view-evit_entity l laws schemas schema known key s)
                ∙ updated_twice schema.model_name m (json key) k (some (assign values d)) none
                    (view l laws schemas s))
        | inr plain ↦
            rw (plain, replace)
              (view-mutate l laws schemas schema known key (assign values d) s m k)
      ]

  KeepsKeys-assign :
      (values : List PropertyValue)
      → has_unique_property schema (names_of values) ≡ false
      → KeepsKeys d (assign values d) schema.unique_indexes
  KeepsKeys-assign values plain =
      KeepsKeys-of_properties d (assign values d) schema.unique_indexes (λ name inside. sym (
        property-assign_other name values d (
          not_named schema (names_of values) name plain
            (ap (λ p. contains p name) listed ∙ inside))))

  -- It succeeds and the indexes are right again, or another entity has the values of a unique index.
  pub refresh_cached_cases :
      (values : List PropertyValue)
      → IsCaches l laws schemas s
      → (((refresh_cached l schemas schema.model_name key values s).0 ≡ ok tt)
          × IsCaches l laws schemas (refresh_cached l schemas schema.model_name key values s).1)
        ⊎ ((message : String) × ((refresh_cached l schemas schema.model_name key values s).0
              ≡ err message)
            × (NoTwins
                  (with_entry
                    (json key)
                    (some (assign values d))
                    (view l laws schemas s schema.model_name))
                  schema.unique_indexes
                → ⊥))
  refresh_cached_cases values h =
      rw (refresh_cached-eq values)
        (elim (Bool-cases (has_unique_property schema (names_of values))) [
          | inl unique ↦
              rw (unique, replace)
                (elim (put_cases l laws schemas schema known key (assign values d) evicted
                  (evit_entity-IsCaches l laws schemas schema known key s h).1) [
                    | inl done ↦ inl done
                    | inr (message, failed, clash) ↦ inr (
                      message,
                      failed,
                      λ alone. clash (
                          NoTwins-of_views
                            (with_entry (json key) (some (assign values d))
                              (view l laws schemas s schema.model_name))
                            (with_entry (json key) (some (assign values d))
                              (view l laws schemas evicted schema.model_name))
                            schema.unique_indexes (λ k. sym (still k (assign values d))) alone),
                    )
                  ])
          | inr plain ↦
              rw (plain, replace)
                (inl (
                  refl,
                  mutate-IsCaches l laws schemas schema known key d (assign values d) s here
                      (KeepsKeys-assign values plain) h,
                ))
        ])
