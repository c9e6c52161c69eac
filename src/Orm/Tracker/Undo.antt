-- ===== src/Orm/Tracker/Undo.antt =====
-- packages/database-postgres/src/basicEntityTracker.ts: `undoEntityChanges` takes a change back, for each kind of
-- change.
use gny.Prelude.{
  String, ◌≡◌, sym, ap, ◌∙◌, inl, inr, true, false, Option, none, some, List, if◌then◌else◌, nat_eq,
  string_eq, option_eq, is_some, contains, Distinct,
}
use gny.Prelude.Int.{ℤ, pos, ◌+ℤ◌, ◌-ℤ◌, int_laws, int_eq}
use gny.Prelude.Map.{Map, lookup, keys}
use mathlib.Core.Path.{subst}
use gny.Interfaces.{Result, ok, or_throw, throw_if, and_then}
use gny.Orm.Entity.{
  Value, undefined, number, Entity, property, partial_copy, json, Same, property-insert, entity_eq,
}
use gny.Orm.Schema.{
  ModelSchema, is_valid_property, is_valid_primary_key, key_names, get_normalized_primary_key,
  resolve_key-primary, index_properties,
}
use gny.Orm.UniquedCache.{Lru, IsLru}
use gny.Orm.UniquedCache.Indexed.{with_entry}
use gny.Orm.EntityCache.{PropertyValue, assign, names_of, Caches, put, evit_entity, refresh_cached}
use gny.Orm.EntityCache.View.{View, updated, NoTwins, view, IsCaches}
use gny.Orm.EntityCache.Operations.{
  get_entity-eq, view-put, put_cases, view-evit_entity, evit_entity-IsCaches,
}
use gny.Orm.EntityCache.Refresh.{updated_self, view-refresh_cached, refresh_cached_cases}
use gny.Orm.Changes.{
  EntityChanges, build_create_changes, build_modify_changes, build_delete_changes, version_property,
  set_version, originals, make_json_object, deleted,
}
use gny.Orm.Changes.Restored.{
  Same-assign-originals, property-assign-set_version, other_name, lookup-make_json_object,
  partial_copy-make_json_object, partial_copy_twice,
}
use gny.Orm.Tracker.{
  ensure_notracking, get_tracking_entity, undo_new, undo_delete, undo_entity_changes,
  track_persistent,
}
use gny.Orm.Tracker.Likes.{
  Alike, Likes, Alike-some, Alike-none, Likes-back, Likes-at, NoTwins-of_Alike, Likes-of_views,
}

property_of_lookup :
    (p : String) (e d : Entity) → lookup p e ≡ lookup p d → property p e ≡ property p d
property_of_lookup p e d h = ap (λ o. elim o as (λ _. Value) [ none ↦ undefined | some v ↦ v ]) h

minus_plus : (n : ℤ) → n +ℤ pos 1 -ℤ pos 1 ≡ n
minus_plus n = omega int_laws

module _ (l : Lru) (laws : IsLru l) (schemas : Map String ModelSchema) where
  -- A call that went through, and left a state that shows a view.
  abbrev pub Shows : Result (Unit {0}) × Caches l schemas → View → Type 0
  Shows r v = (r.0 ≡ ok tt) × IsCaches l laws schemas r.1 × Likes (view l laws schemas r.1) v

  -- In every state that shows the view after, undoing the change gives one that shows the view before.
  abbrev pub Undoes : EntityChanges → View → View → Type 0
  Undoes change after before =
      (s : Caches l schemas)
      → IsCaches l laws schemas s
      → Likes (view l laws schemas s) after
      → Shows (undo_entity_changes l schemas change s) before

  -- What every model has, and a model of rows with versions.
  pub record IsModel (schema : ModelSchema) : Type 0 where
    pub known : lookup schema.model_name schemas ≡ some schema
    pub listed : schema.unique_properties ≡ index_properties schema.unique_indexes
    pub unversioned_indexes : contains schema.unique_properties version_property ≡ false
    pub unversioned_key : contains (key_names schema) version_property ≡ false

  abbrev pub IsUnique : View → Type 0
  IsUnique v =
      (model : String) (schema : ModelSchema)
      → lookup model schemas ≡ some schema
      → NoTwins (v model) schema.unique_indexes

  pub ensure_notracking-eq :
      (schema : ModelSchema) (key : Entity) (s : Caches l schemas)
      → IsModel schema
      → is_valid_primary_key schema key ≡ true
      → partial_copy key (key_names schema) ≡ key
      → ensure_notracking l schemas schema key s
        ≡ throw_if
            (is_some (view l laws schemas s schema.model_name (json key)))
            "Entity is tracking already"
  ensure_notracking-eq schema key s is valid whole =
      rw (resolve_key-primary schema key valid whole, ensure_notracking, get_tracking_entity)
        (rw (get_entity-eq l laws schemas schema is.known key s))

  module _ (schema : ModelSchema) (is : IsModel schema) (before : View)
      (alone : IsUnique before) where
    abbrev name : String
    name = schema.model_name

    back_alone :
        (key e : Entity) (put : Option Entity) (s : Caches l schemas)
        → Likes (view l laws schemas s) (updated name key put before)
        → Alike (some e) (before name key)
        → NoTwins (with_entry key (some e) (view l laws schemas s name)) schema.unique_indexes
    back_alone key e put s same back =
        NoTwins-of_Alike (with_entry key (some e) (view l laws schemas s name)) (before name)
          schema.unique_indexes
          (λ k.
            subst (λ o. Alike o (before name k))
              (updated_self name key k (some e) (view l laws schemas s))
              (Likes-back name key put (some e) (view l laws schemas s) before same back name k))
          (alone name schema is.known)

    pub create-Undoes :
        (e d : Entity)
        → before name (json (get_normalized_primary_key schema e)) ≡ none
        → Undoes
            (build_create_changes schema e)
            (updated name (json (get_normalized_primary_key schema e)) (some d) before)
            before
    unfolding undo_entity_changes
    create-Undoes e d absent s h same =
        let key = get_normalized_primary_key schema e in
        let (x, found, alike) =
          Alike-some (view l laws schemas s name (json key)) d
            (Likes-at name (json key) (some d) (view l laws schemas s) before same) in
        let does : undo_new l schemas (build_create_changes schema e) s
            ≡ evit_entity l schemas name key s =
          ap
            (λ r.
              and_then (r, s)
                (λ o s'. if is_some o then evit_entity l schemas name key s' else (ok tt, s')))
            (get_entity-eq l laws schemas schema is.known key s ∙ ap ok found) in
        let (done, caches) = evit_entity-IsCaches l laws schemas schema is.known key s h in
        subst (λ r. Shows r before) (sym does)
          (
            done,
            caches,
            Likes-of_views (view l laws schemas (evit_entity l schemas name key s).1)
                (updated name (json key) none (view l laws schemas s)) before
                (view-evit_entity l laws schemas schema is.known key s)
                (Likes-back name (json key) (some d) none (view l laws schemas s) before same
                  (subst (Alike none) (sym absent) tt)),
          )

    Same-undone :
        (e x : Entity) (n : ℤ) (values : List PropertyValue)
        → property version_property e ≡ number n
        → contains (names_of values) version_property ≡ false
        → Same x (assign values (set_version (n +ℤ pos 1) e))
        → Same
            (assign
              (originals
                (build_modify_changes schema
                  (set_version (n +ℤ pos 1) e)
                  values
                  (n +ℤ pos 1)).property_changes)
              x)
            e
    Same-undone e x n values at unversioned same =
        Same-assign-originals e (set_version (n +ℤ pos 1) e) (n +ℤ pos 1 -ℤ pos 1) (n +ℤ pos 1)
          (at ∙ ap number (sym (minus_plus n))) values x
          (λ p outside. same p ∙ property-assign-set_version e values (n +ℤ pos 1) p outside)
          (λ p inside.
            property-insert p version_property (number (n +ℤ pos 1)) e
            ∙ ap (λ b. if b then number (n +ℤ pos 1) else property p e)
                (other_name p (names_of values) inside unversioned))

    pub modify-Undoes :
        (e : Entity) (n : ℤ) (values : List PropertyValue)
        → before name (json (get_normalized_primary_key schema (set_version (n +ℤ pos 1) e)))
          ≡ some e
        → property version_property e ≡ number n
        → contains (names_of values) version_property ≡ false
        → Undoes
            (build_modify_changes schema (set_version (n +ℤ pos 1) e) values (n +ℤ pos 1))
            (updated name
              (json (get_normalized_primary_key schema (set_version (n +ℤ pos 1) e)))
              (some (assign values (set_version (n +ℤ pos 1) e)))
              before)
            before
    unfolding undo_entity_changes
    modify-Undoes e n values here at unversioned s h same =
        let bumped = set_version (n +ℤ pos 1) e in
        let key = get_normalized_primary_key schema bumped in
        let old =
          originals (build_modify_changes schema bumped values (n +ℤ pos 1)).property_changes in
        let (x, found, alike) =
          Alike-some (view l laws schemas s name (json key)) (assign values bumped) (
            Likes-at name (json key) (some (assign values bumped)) (view l laws schemas s) before
              same) in
        let back : Alike (some (assign old x)) (before name (json key)) =
          subst (Alike (some (assign old x))) (sym here)
            (Same-undone e x n values at unversioned alike) in
        elim (refresh_cached_cases l laws schemas schema is.known is.listed key x s found old h) [
          | inl (done, caches) ↦ (
            done,
            caches,
            Likes-of_views (view l laws schemas (refresh_cached l schemas name key old s).1)
                (updated name (json key) (some (assign old x)) (view l laws schemas s)) before
                (view-refresh_cached l laws schemas schema is.known is.listed key x s found old)
                (Likes-back name (json key) (some (assign values bumped)) (some (assign old x))
                  (view l laws schemas s) before same back),
          )
          | inr (message, failed, clash) ↦ absurd (
              clash
                (back_alone (json key) (assign old x) (some (assign values bumped)) s same back))
        ]

    pub delete-Undoes :
        (e : Entity) (version : ℤ)
        → before name (json (get_normalized_primary_key schema e)) ≡ some e
        → is_valid_primary_key schema (get_normalized_primary_key schema e) ≡ true
        → Distinct (keys e)
        → ((p : String) → is_valid_property schema p ≡ false → lookup p e ≡ none)
        → Undoes
            (build_delete_changes schema e version)
            (updated name (json (get_normalized_primary_key schema e)) none before)
            before
    unfolding undo_entity_changes track_persistent
    delete-Undoes e version here valid distinct proper s h same =
        let key = get_normalized_primary_key schema e in
        let row = make_json_object (originals (deleted schema e)) in
        let key-eq : get_normalized_primary_key schema row ≡ key =
          partial_copy-make_json_object schema e (key_names schema) distinct proper in
        let absent =
          Alike-none (view l laws schemas s name (json key))
            (Likes-at name (json key) none (view l laws schemas s) before same) in
        let back : Alike (some row) (before name (json key)) =
          subst (Alike (some row)) (sym here) (λ p.
            property_of_lookup p row e (lookup-make_json_object schema e p distinct proper)) in
        let does : undo_delete l schemas (build_delete_changes schema e version) s
            ≡ put l schemas name key row s =
          ap
            (λ o.
              and_then (or_throw o "no schema", s)
                (λ schema'. track_persistent l schemas schema' row))
            is.known
          ∙ ap
              (λ k.
                and_then (ensure_notracking l schemas schema k s, s)
                  (λ _. put l schemas name k row))
              key-eq
          ∙ ap (λ r. and_then (r, s) (λ _. put l schemas name key row))
              (ensure_notracking-eq schema key s is valid (partial_copy_twice e (key_names schema))
                ∙ ap (λ o. throw_if (is_some o) "Entity is tracking already") absent) in
        elim (put_cases l laws schemas schema is.known key row s h) [
          | inl (done, caches) ↦
              subst (λ r. Shows r before) (sym does)
                (
                  done,
                  caches,
                  Likes-of_views (view l laws schemas (put l schemas name key row s).1)
                      (updated name (json key) (some row) (view l laws schemas s)) before
                      (view-put l laws schemas schema is.known key row s)
                      (Likes-back name (json key) none (some row) (view l laws schemas s) before
                        same back),
                )
          | inr (message, failed, clash) ↦
              absurd (clash (back_alone (json key) row none s same back))
        ]
