-- ===== src/Orm/Tracker/Steps.antt =====
-- packages/database-postgres/src/basicEntityTracker.ts: `trackNew` and `trackDelete` inside a contract.
use gny.Prelude.{
  String, ◌≡◌, refl, sym, ap, ◌∙◌, inl, inr, Option, none, some, List, [], ◌∷◌, nat_eq, string_eq,
  option_eq, Option-cases, is_some,
}
use gny.Prelude.Int.{ℤ, int_eq}
use gny.Prelude.Map.{Map, lookup}
use mathlib.Core.Path.{subst}
use gny.Interfaces.{Result, ok, err, throw_if, and_then}
use gny.Orm.Entity.{number, Entity, property, json, entity_eq}
use gny.Orm.Schema.{ModelSchema, ModelIndex, key_names, get_normalized_primary_key}
use gny.Orm.UniquedCache.{UniquedCache, UniqueIndex, Lru, IsLru, is_full, index_key}
use gny.Orm.UniquedCache.Index.{is_full_of_key, some_inj}
use gny.Orm.UniquedCache.Indexed.{AllAgree}
use gny.Orm.EntityCache.{Caches, put, evit_entity}
use gny.Orm.EntityCache.View.{FieldsOf, View, updated, NoTwins, view, IsCaches}
use gny.Orm.EntityCache.Operations.{view-put, put_cases, view-evit_entity, evit_entity-IsCaches}
use gny.Orm.Changes.{EntityChanges, build_create_changes, build_delete_changes, version_property}
use gny.Orm.Changes.Restored.{partial_copy_twice}
use gny.Orm.Tracker.{ensure_notracking}
use gny.Orm.Tracker.Likes.{Alike}
use gny.Orm.Entity.{value_eq}
use gny.Orm.EntityCache.Operations.{NoTwins-of_views}
use gny.Orm.Changes.{version_of}
use gny.Orm.Tracker.{Tracker, new_entity, push_changes, put_new, track_new, track_delete}
use gny.Orm.Tracker.Undo.{Undoes, IsUnique, create-Undoes, delete-Undoes, ensure_notracking-eq}
use gny.Orm.Tracker.Calls.{
  creating, deleting, shown, Fits, InContract, noted, pushed, noted-InContract,
}

and_then_ok {ℓ κ} :
    {A : Type ℓ} {S : Type κ} (r : Result A) (s : S) (next : A → S → Result (Unit {0}) × S)
    → (and_then (r, s) next).0 ≡ ok tt
    → (a : A) × (r ≡ ok a)
and_then_ok (ok a) s next h = (a, refl)
and_then_ok (err message) s next h = cc

pub version_of-number :
    (e : Entity) (n : ℤ) → property version_property e ≡ number n → version_of e ≡ n
version_of-number e n h = rw (h, version_of)

absent_of_throw :
    (o : Option Entity) (message : String) → throw_if (is_some o) message ≡ ok tt → o ≡ none
absent_of_throw none message h = refl
absent_of_throw (some e) message h = cc

NoTwins-of_none : (ms : List ModelIndex) → NoTwins (λ k. none) ms
NoTwins-of_none [] = tt
NoTwins-of_none (m ∷ ms) = ((λ j k d e at_j at_k full named. cc), NoTwins-of_none ms)

NoTwins-of_AllAgree :
    (v : Entity → Option Entity) (is : List UniqueIndex) (ms : List ModelIndex)
    → FieldsOf is ms
    → AllAgree v is
    → NoTwins v ms
NoTwins-of_AllAgree v [] [] fields h = tt
NoTwins-of_AllAgree v [] (m ∷ ms) fields h = elim fields [ ]
NoTwins-of_AllAgree v (i ∷ is) [] fields h = elim fields [ ]
NoTwins-of_AllAgree v (i ∷ is) (m ∷ ms) (same, fields) (a, others) = (
  λ j k d e at_j at_k full named.
      let q = index_key i.fields d in
      let d-full = ap (λ f. is_full f d) same ∙ full in
      let same-key = ap (λ f. index_key f d) same ∙ named ∙ ap (λ f. index_key f e) (sym same) in
      let at_d = (a q j).1 (d, at_j, d-full, refl) in
      let at_e =
        (a q k).1 (e, at_k, sym (is_full_of_key i.fields d e same-key) ∙ d-full, sym same-key) in
      some_inj (sym at_d ∙ at_e),
  NoTwins-of_AllAgree v is ms fields others,
)

module _ (l : Lru) (laws : IsLru l) (schemas : Map String ModelSchema) where
  cached :
      (model : String) (s : Caches l schemas) {o : Option (UniquedCache l)}
      → lookup model s ≡ o
      → (k : Entity)
      → view l laws schemas s model k
        ≡ elim o as (λ _. Option Entity) [ none ↦ none | some c ↦ l.get k c.cache ]
  cached model s h k =
      ap (λ x. elim x as (λ _. Option Entity) [ none ↦ none | some c ↦ l.get k c.cache ]) h

  pub IsUnique-of_IsCaches :
      (s : Caches l schemas)
      → IsCaches l laws schemas s
      → IsUnique l laws schemas (view l laws schemas s)
  IsUnique-of_IsCaches s h model schema known = elim (Option-cases (lookup model s)) [
    | inl missing ↦
        NoTwins-of_views (λ k. none) (view l laws schemas s model) schema.unique_indexes
          (λ k. sym (cached model s missing k)) (NoTwins-of_none schema.unique_indexes)
    | inr (c, found) ↦
        let (schema', known', indexed, fields) = h model c found in
        NoTwins-of_views (λ k. l.get k c.cache) (view l laws schemas s model) schema.unique_indexes
          (λ k. sym (cached model s found k))
          (NoTwins-of_AllAgree (λ k. l.get k c.cache) c.indexes schema.unique_indexes
            (subst (λ x. FieldsOf c.indexes x.unique_indexes) (some_inj (sym known' ∙ known))
              fields)
            indexed)
  ]

  pub Undoes-of_views :
      (c : EntityChanges) (v v' w : View)
      → ((model : String) (k : Entity) → v model k ≡ v' model k)
      → Undoes l laws schemas c v' w
      → Undoes l laws schemas c v w
  Undoes-of_views c v v' w same undoes s h likes =
      undoes s h
        (λ model k. subst (Alike (view l laws schemas s model k)) (same model k) (likes model k))

  pub deleting-InContract :
      (start : Tracker l schemas) (schema : ModelSchema) (e : Entity) (t : Tracker l schemas)
      → InContract l laws schemas start t
      → Fits l laws schemas (deleting schema e) t
      → InContract l laws schemas start (track_delete l schemas schema e t).1
  unfolding track_delete
  deleting-InContract start schema e t i (is, here, valid, distinct, proper) =
      let key = get_normalized_primary_key schema e in
      let change = build_delete_changes schema e (version_of e) in
      let s = (evit_entity l schemas schema.model_name key t.caches).1 in
      subst (InContract l laws schemas start)
        (sym (
          ap
            (λ (t' : Tracker l schemas). record t' {
              caches = (evit_entity l schemas schema.model_name key t'.caches).1;
            })
            (pushed l laws schemas change t i.confirming)))
        (noted-InContract l laws schemas start change s t i
          (evit_entity-IsCaches l laws schemas schema is.known key t.caches i.caches).1
          (Undoes-of_views change (view l laws schemas s)
            (updated schema.model_name (json key) none (shown l laws schemas t))
            (shown l laws schemas t) (view-evit_entity l laws schemas schema is.known key t.caches)
            (delete-Undoes l laws schemas schema is (shown l laws schemas t)
              (IsUnique-of_IsCaches t.caches i.caches) e (version_of e) here valid distinct
              proper)))

  pub creating-InContract :
      (start : Tracker l schemas) (schema : ModelSchema) (e : Entity) (t : Tracker l schemas)
      → InContract l laws schemas start t
      → Fits l laws schemas (creating schema e) t
      → (track_new l schemas schema e t).0 ≡ ok tt
      → InContract l laws schemas start (track_new l schemas schema e t).1
  unfolding track_new
  creating-InContract start schema e t i (is, valid, keyed) done =
      let key = get_normalized_primary_key schema e in
      let row = new_entity l schemas schema e in
      let change = build_create_changes schema row in
      let (a, untracked) =
        and_then_ok (ensure_notracking l schemas schema key t.caches) t
          (λ _. put_new l schemas schema key row) done in
      let absent : shown l laws schemas t schema.model_name (json key) ≡ none =
        absent_of_throw (shown l laws schemas t schema.model_name (json key))
          "Entity is tracking already"
          (sym (
              ensure_notracking-eq l laws schemas schema key t.caches is valid
                (partial_copy_twice e (key_names schema)))
            ∙ untracked) in
      let first : track_new l schemas schema e t ≡ put_new l schemas schema key row t =
        ap (λ r. and_then (r, t) (λ _. put_new l schemas schema key row)) untracked in
      let (b, stored) =
        and_then_ok (put l schemas schema.model_name key row t.caches).0
          (record t { caches = (put l schemas schema.model_name key row t.caches).1 })
          (λ _ t'. (ok tt, push_changes l schemas change t')) (sym (ap (λ r. r.0) first) ∙ done) in
      let s = (put l schemas schema.model_name key row t.caches).1 in
      let ends : (track_new l schemas schema e t).1 ≡ noted l laws schemas change s t =
        ap (λ r. r.1) first
        ∙ ap
            (λ r.
              (and_then (r, record t { caches = s })
                (λ _ t'. (ok tt, push_changes l schemas change t'))).1)
            stored
        ∙ pushed l laws schemas change (record t { caches = s }) i.confirming in
      let undoes =
        Undoes-of_views change (view l laws schemas s)
          (updated schema.model_name (json (get_normalized_primary_key schema row)) (some row)
            (shown l laws schemas t))
          (shown l laws schemas t)
          (λ m k.
            view-put l laws schemas schema is.known key row t.caches m k
            ∙ ap (λ q. updated schema.model_name (json q) (some row) (shown l laws schemas t) m k)
                (sym keyed))
          (create-Undoes l laws schemas schema is (shown l laws schemas t)
            (IsUnique-of_IsCaches t.caches i.caches) row row
            (ap (λ q. shown l laws schemas t schema.model_name (json q)) keyed ∙ absent)) in
      elim (put_cases l laws schemas schema is.known key row t.caches i.caches) [
        | inl (fine, caches) ↦
            subst (InContract l laws schemas start) (sym ends)
              (noted-InContract l laws schemas start change s t i caches undoes)
        | inr (message, failed, clash) ↦ cc (sym failed ∙ stored)
      ]
