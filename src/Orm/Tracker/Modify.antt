-- ===== src/Orm/Tracker/Modify.antt =====
-- packages/database-postgres/src/basicEntityTracker.ts: `trackModify` inside a contract.
use gny.Prelude.{
  String, ◌≡◌, refl, sym, ap, ◌∙◌, inl, inr, false, some, List, [], ◌∷◌, eq_iff, if◌then◌else◌,
  nat_eq, string_eq, option_eq, contains,
}
use gny.Prelude.Int.{ℤ, pos, ◌+ℤ◌, int_eq}
use gny.Prelude.Map.{Map}
use mathlib.Core.Path.{subst}
use gny.Interfaces.{ok}
use gny.Orm.Entity.{number, Entity, property, json, property-insert, entity_eq, entity_eqb_iff}
use gny.Orm.Schema.{ModelSchema, key_names, get_normalized_primary_key, index_properties}
use gny.Orm.UniquedCache.{Lru, IsLru}
use gny.Orm.EntityCache.{PropertyValue, assign, names_of, refresh_cached}
use gny.Orm.EntityCache.View.{updated, view, IsCaches}
use gny.Orm.EntityCache.Operations.{get_entity-eq}
use gny.Orm.EntityCache.Refresh.{view-refresh_cached, refresh_cached_cases}
use gny.Orm.Changes.{build_modify_changes, version_property, set_version}
use gny.Orm.Changes.Restored.{other_name, partial_copy-set_version}
use gny.Orm.Tracker.Likes.{updated_here}
use gny.Orm.Entity.{value_eq}
use gny.Orm.EntityCache.{mutate}
use gny.Orm.EntityCache.Operations.{view-mutate, mutate-IsCaches}
use gny.Orm.EntityCache.Refresh.{KeepsKeys-of_properties, updated_cong, updated_twice}
use gny.Orm.Changes.{version_of}
use gny.Orm.Tracker.{Tracker, bump, track_values}
use gny.Orm.Tracker.Undo.{IsModel, modify-Undoes}
use gny.Orm.Tracker.Calls.{shown, InContract, noted, pushed, noted-InContract}
use gny.Orm.Tracker.Steps.{version_of-number, Undoes-of_views, IsUnique-of_IsCaches}

module _ (l : Lru) (laws : IsLru l) (schemas : Map String ModelSchema) where
  module _ (schema : ModelSchema) (e : Entity) (t : Tracker l schemas)
      (is : IsModel l laws schemas schema)
      (here : shown l laws schemas t schema.model_name (json (get_normalized_primary_key schema e))
        ≡ some e) where
    bump-eq :
        bump l schemas schema e t.caches
        ≡ mutate l schemas schema.model_name
            (get_normalized_primary_key schema e)
            (set_version (version_of e +ℤ pos 1) e)
            t.caches
    bump-eq = rw (
      get_entity-eq l laws schemas schema is.known (get_normalized_primary_key schema e) t.caches
          ∙ ap ok here,
      bump,
    )

    bump-view :
        (m : String) (k : Entity)
        → view l laws schemas (bump l schemas schema e t.caches) m k
          ≡ updated schema.model_name
              (json (get_normalized_primary_key schema e))
              (some (set_version (version_of e +ℤ pos 1) e))
              (shown l laws schemas t)
              m
              k
    bump-view m k =
        ap (λ s. view l laws schemas s m k) bump-eq
        ∙ view-mutate l laws schemas schema is.known (get_normalized_primary_key schema e)
            (set_version (version_of e +ℤ pos 1) e) t.caches m k

    bump-IsCaches :
        IsCaches l laws schemas t.caches
        → IsCaches l laws schemas (bump l schemas schema e t.caches)
    bump-IsCaches h = subst (IsCaches l laws schemas) (sym bump-eq) (
        mutate-IsCaches l laws schemas schema is.known (get_normalized_primary_key schema e) e
          (set_version (version_of e +ℤ pos 1) e) t.caches here
          (KeepsKeys-of_properties e (set_version (version_of e +ℤ pos 1) e) schema.unique_indexes
            (λ p inside. sym (
              property-insert p version_property (number (version_of e +ℤ pos 1)) e
              ∙ ap (λ b. if b then number (version_of e +ℤ pos 1) else property p e)
                  (other_name p (index_properties schema.unique_indexes) inside (
                    ap (λ ps. contains ps version_property) (sym is.listed)
                    ∙ is.unversioned_indexes)))))
          h)

  pub modifying-InContract :
      (start : Tracker l schemas) (schema : ModelSchema) (e : Entity) (values : List PropertyValue)
      (t : Tracker l schemas)
      → InContract l laws schemas start t
      → IsModel l laws schemas schema
      → shown l laws schemas t schema.model_name (json (get_normalized_primary_key schema e))
        ≡ some e
      → (n : ℤ) → property version_property e ≡ number n
      → contains (names_of values) version_property ≡ false
      → (track_values l schemas schema e values t).0 ≡ ok tt
      → InContract l laws schemas start (track_values l schemas schema e values t).1
  modifying-InContract start schema e [] t i is here n at plain done = i
  modifying-InContract start schema e (v ∷ vs) t i is here n at plain done =
      let version = version_of e +ℤ pos 1 in
      let bumped = set_version version e in
      let key' = get_normalized_primary_key schema bumped in
      let same-key : key' ≡ get_normalized_primary_key schema e =
        partial_copy-set_version e version (key_names schema) is.unversioned_key in
      let here' = ap (λ q. shown l laws schemas t schema.model_name (json q)) same-key ∙ here in
      let at' = at ∙ ap number (sym (version_of-number e n at)) in
      let change = build_modify_changes schema bumped (v ∷ vs) version in
      let s = bump l schemas schema e t.caches in
      let s' = (refresh_cached l schemas schema.model_name key' (v ∷ vs) s).1 in
      let shown-bump = λ (m : String) (k : Entity).
        bump-view schema e t is here m k
        ∙ ap (λ q. updated schema.model_name (json q) (some bumped) (shown l laws schemas t) m k)
            (sym same-key) in
      let here-bump =
        shown-bump schema.model_name (json key')
        ∙ updated_here schema.model_name schema.model_name (json key') (json key') (some bumped)
            (shown l laws schemas t) ((eq_iff schema.model_name schema.model_name).1 refl)
            ((entity_eqb_iff (json key') (json key')).1 refl) in
      let all = pushed l laws schemas change (record t { caches = s }) i.confirming in
      let ok-refresh =
        sym (
          ap
            (λ (t' : Tracker l schemas).
              (refresh_cached l schemas schema.model_name key' (v ∷ vs) t'.caches).0)
            all)
        ∙ done in
      let ends : (track_values l schemas schema e (v ∷ vs) t).1 ≡ noted l laws schemas change s' t =
        ap
          (λ (t' : Tracker l schemas). record t' {
            caches = (refresh_cached l schemas schema.model_name key' (v ∷ vs) t'.caches).1;
          })
          all in
      let undoes =
        Undoes-of_views l laws schemas change (view l laws schemas s')
          (updated schema.model_name (json key') (some (assign (v ∷ vs) bumped))
            (shown l laws schemas t))
          (shown l laws schemas t)
          (λ m k.
            view-refresh_cached l laws schemas schema is.known is.listed key' bumped s here-bump
              (v ∷ vs) m k
            ∙ updated_cong schema.model_name m (json key') k (some (assign (v ∷ vs) bumped))
                (view l laws schemas s)
                (updated schema.model_name (json key') (some bumped) (shown l laws schemas t))
                shown-bump
            ∙ updated_twice schema.model_name m (json key') k (some (assign (v ∷ vs) bumped))
                (some bumped) (shown l laws schemas t))
          (modify-Undoes l laws schemas schema is (shown l laws schemas t)
            (IsUnique-of_IsCaches l laws schemas t.caches i.caches) e (version_of e) (v ∷ vs) here'
            at' plain) in
      elim (refresh_cached_cases l laws schemas schema is.known is.listed key' bumped s here-bump
        (v ∷ vs) (bump-IsCaches schema e t is here i.caches)) [
          | inl (fine, caches) ↦
              subst (InContract l laws schemas start) (sym ends)
                (noted-InContract l laws schemas start change s' t i caches undoes)
          | inr (message, failed, clash) ↦ cc (sym failed ∙ ok-refresh)
        ]
