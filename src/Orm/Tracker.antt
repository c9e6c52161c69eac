-- ===== src/Orm/Tracker.antt =====
-- packages/database-postgres/src/basicEntityTracker.ts, `class BasicEntityTracker`: the changes of rows that are
-- not yet in the database, and those of the last versions. Versions, decimal strings in the source, are integers;
-- `allTrackingEntities`, which stays empty, is left out.
use gny.Prelude.{
  ℕ, zero, suc, ◌+◌, String, ap, Bool, true, false, not, Option, none, some, List, [], ◌∷◌, ◌++◌,
  arith, if◌then◌else◌, nat_eq, string_eq, option_eq, is_some, set,
}
use gny.Prelude.Int.{ℤ, pos, negsuc, ◌+ℤ◌, int_eq}
use gny.Prelude.Map.{Map, lookup}
pub mod Likes
pub mod Undo
pub mod Calls
pub mod Steps
pub mod Modify
pub mod Cancel
use gny.Interfaces.{Result, ok, err, ◌>>=◌, or_throw, throw_if, and_then}
use gny.Orm.Entity.{Value, Entity, property}
use gny.Orm.Schema.{
  ModelSchema, ResolvedKey, primary, unique, is_valid_property, get_normalized_primary_key,
  resolve_key, set_default_values,
}
use gny.Orm.UniquedCache.{Lru}
use gny.Orm.Changes.{
  EntityChangeType, new, modify, delete, EntityChanges, version_of, set_version,
  build_create_changes, build_modify_changes, build_delete_changes, changing, originals,
  make_json_object, reversed,
}
use gny.Orm.EntityCache.{
  PropertyValue, assign, Caches, get_entity, get_unique_entity, put, evit_entity, mutate,
  refresh_cached,
}

module _ (l : Lru) (schemas : Map String ModelSchema) where
  pub record Tracker : Type 0 where
    pub caches : Caches l schemas
    pub confirming : Bool
    pub history : Map ℤ (List EntityChanges)
    pub unconfirmed_changes : List EntityChanges
    pub confirmed_changes : List EntityChanges
    pub min_version : ℤ
    pub current_version : ℤ
    pub max_history_versions_hold : ℕ

  -- `constructor`, on a new session cache
  abbrev pub new_tracker : ℕ → Tracker
  new_tracker hold = record {
    caches = [];
    confirming = false;
    history = [];
    unconfirmed_changes = [];
    confirmed_changes = [];
    min_version = negsuc 0;
    current_version = negsuc 0;
    max_history_versions_hold = hold;
  }

  -- `getTrackingEntity(schema, key)`
  abbrev pub get_tracking_entity : ModelSchema → Entity → Caches l schemas → Result (Option Entity)
  get_tracking_entity schema key s = resolve_key schema key >>= λ resolved. elim resolved [
    | none ↦ ok none
    | some (primary k) ↦ get_entity l schemas schema.model_name k s
    | some (unique name k) ↦ get_unique_entity l schemas schema.model_name name k s
  ]

  -- `ensureNotracking(schema, primaryKey)`
  abbrev pub ensure_notracking : ModelSchema → Entity → Caches l schemas → Result (Unit {0})
  ensure_notracking schema key s = get_tracking_entity schema key s >>= λ found.
      throw_if (is_some found) "Entity is tracking already"

  -- `trackPersistent(schema, entity)`
  unfoldable pub track_persistent :
      ModelSchema → Entity → Caches l schemas → Result (Unit {0}) × Caches l schemas
  track_persistent schema e s =
      let key = get_normalized_primary_key schema e in
      and_then (ensure_notracking schema key s, s) (λ _. put l schemas schema.model_name key e)

  -- `this.changesStack.push(changes)`
  abbrev pub push_changes : EntityChanges → Tracker → Tracker
  push_changes change t =
      if t.confirming
      then record t { unconfirmed_changes = t.unconfirmed_changes ++ change ∷ [] }
      else record t { confirmed_changes = t.confirmed_changes ++ change ∷ [] }

  -- The copy that `trackNew` stores.
  abbrev pub new_entity : ModelSchema → Entity → Entity
  new_entity schema e = set_version (pos 1) (set_default_values schema.columns e)

  abbrev pub put_new : ModelSchema → Entity → Entity → Tracker → Result (Unit {0}) × Tracker
  put_new schema key e t =
      let (result, s) = put l schemas schema.model_name key e t.caches in
      and_then (result, record t { caches = s })
        (λ _ t'. (ok tt, push_changes (build_create_changes schema e) t'))

  -- `trackNew(schema, entity)`
  unfoldable pub track_new : ModelSchema → Entity → Tracker → Result (Unit {0}) × Tracker
  track_new schema e t =
      let key = get_normalized_primary_key schema e in
      and_then (ensure_notracking schema key t.caches, t)
        (λ _. put_new schema key (new_entity schema e))

  -- `trackDelete(schema, trackingEntity)`
  unfoldable pub track_delete : ModelSchema → Entity → Tracker → Result (Unit {0}) × Tracker
  track_delete schema e t =
      let t' = push_changes (build_delete_changes schema e (version_of e)) t in
      let (result, s) =
        evit_entity l schemas schema.model_name (get_normalized_primary_key schema e) t'.caches in
      (result, record t' { caches = s })

  -- `++trackingEntity._version_`: the entity that is tracked is the cached object.
  abbrev pub bump : ModelSchema → Entity → Caches l schemas → Caches l schemas
  bump schema e s =
      let key = get_normalized_primary_key schema e in
      elim (get_entity l schemas schema.model_name key s) [
        | ok (some d) ↦
            mutate l schemas schema.model_name key (set_version (version_of e +ℤ pos 1) d) s
        | other ↦ s
      ]

  abbrev pub track_values :
      ModelSchema → Entity → List PropertyValue → Tracker → Result (Unit {0}) × Tracker
  track_values schema e [] t = (ok tt, t)
  track_values schema e (v ∷ vs) t =
      let bumped = record t { caches = bump schema e t.caches } in
      let version = version_of e +ℤ pos 1 in
      let t' =
        push_changes (build_modify_changes schema (set_version version e) (v ∷ vs) version)
          bumped in
      let (result, s) =
        refresh_cached l schemas schema.model_name
          (get_normalized_primary_key schema (set_version version e)) (v ∷ vs) t'.caches in
      (result, record t' { caches = s })

  -- `trackModify(schema, trackingEntity, modifier)`
  unfoldable pub track_modify :
      ModelSchema → Entity → Entity → Tracker → Result (Unit {0}) × Tracker
  track_modify schema e modifier t = track_values schema e (changing schema e modifier) t

  abbrev pub undo_new : EntityChanges → Caches l schemas → Result (Unit {0}) × Caches l schemas
  undo_new change s =
      and_then (get_entity l schemas change.model change.primary_key s, s)
        (λ found s'.
          if is_some found
          then evit_entity l schemas change.model change.primary_key s'
          else (ok tt, s'))

  abbrev pub undo_delete : EntityChanges → Caches l schemas → Result (Unit {0}) × Caches l schemas
  undo_delete change s =
      and_then (or_throw (lookup change.model schemas) "no schema", s)
        (λ schema. track_persistent schema (make_json_object (originals change.property_changes)))

  abbrev undo_by :
      EntityChangeType → EntityChanges → Caches l schemas → Result (Unit {0}) × Caches l schemas
  undo_by new change s = undo_new change s
  undo_by modify change s =
      refresh_cached l schemas change.model change.primary_key (originals change.property_changes) s
  undo_by delete change s = undo_delete change s

  -- `undoEntityChanges(change)`
  unfoldable pub undo_entity_changes :
      EntityChanges → Caches l schemas → Result (Unit {0}) × Caches l schemas
  undo_entity_changes change s = undo_by change.kind change s

  abbrev pub after_undo :
      Result (Unit {0}) × Caches l schemas
      → List EntityChanges
      → (Caches l schemas → Result (Unit {0}) × List EntityChanges × Caches l schemas)
      → Result (Unit {0}) × List EntityChanges × Caches l schemas
  after_undo (err message, s) left next = (err message, left, s)
  after_undo (ok done, s) left next = next s

  -- The loop of `undoChanges`, on the changes with the latest first, and what it leaves where one throws
  unfoldable pub undo_latest :
      List EntityChanges
      → Caches l schemas
      → Result (Unit {0}) × List EntityChanges × Caches l schemas
  undo_latest [] s = (ok tt, [], s)
  undo_latest (c ∷ cs) s = after_undo (undo_entity_changes c s) cs (undo_latest cs)

  -- `undoChanges(entityChanges)`
  abbrev pub undo_changes :
      List EntityChanges
      → Caches l schemas
      → Result (Unit {0}) × List EntityChanges × Caches l schemas
  undo_changes changes s =
      let (result, left, s') = undo_latest (reversed changes) s in (result, reversed left, s')

  -- `beginConfirm()`
  abbrev pub begin_confirm : Tracker → Tracker
  begin_confirm t = record t { confirming = true; unconfirmed_changes = [] }

  -- `confirm()`
  abbrev pub confirm : Tracker → Tracker
  confirm t = record t {
    confirmed_changes = t.confirmed_changes ++ t.unconfirmed_changes;
    unconfirmed_changes = [];
    confirming = false;
  }

  -- `cancelConfirm()`
  unfoldable pub cancel_confirm : Tracker → Result (Unit {0}) × Tracker
  cancel_confirm t =
      let (result, left, s) = undo_changes t.unconfirmed_changes t.caches in
      and_then (result, record t { caches = s; unconfirmed_changes = left })
        (λ _ t'. (ok tt, record t' { confirming = false }))

  -- `rejectChanges()`
  unfoldable pub reject_changes : Tracker → Result (Unit {0}) × Tracker
  reject_changes t = and_then (cancel_confirm t) (λ _ t'.
      let (result, left, s) = undo_changes t'.confirmed_changes t'.caches in
      (result, record t' { caches = s; confirmed_changes = left }))
