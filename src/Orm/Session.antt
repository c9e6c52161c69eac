-- ===== src/Orm/Session.antt =====
-- packages/database-postgres/src/dbSession.ts, `class DbSession`: the tracker with the locks. The database is a
-- parameter: the rows of a key, and whether a list of changes can be written or taken back.
use gny.Prelude.{
  zero, suc, ◌+◌, String, ap, Bool, true, false, not, ◌||◌, Option, none, some, List, [], ◌∷◌, ◌++◌,
  arith, ltb, leb, if◌then◌else◌, ◌==◌, nat_eq, string_eq, option_eq, is_some, take, contains,
}
use gny.Prelude.Int.{ℤ, pos, ◌+ℤ◌, ltb_ℤ, leb_ℤ, int_eq}
use gny.Prelude.Map.{Map}
pub mod Contract
pub mod Rollback
use gny.Interfaces.{Result, ok, err, ◌>>=◌, ◌>>◌, or_throw, throw_if, and_then}
use gny.Orm.Entity.{Value, undefined, text, number, Entity, property, entity_eq}
use gny.Orm.Schema.{
  ModelSchema, ResolvedKey, primary, unique, is_valid_primary_key, get_normalized_primary_key,
  resolve_key,
}
use gny.Orm.UniquedCache.{Lru}
use gny.Orm.EntityCache.{Caches, get_entity, get_unique_entity}
use gny.Orm.Changes.{EntityChanges}
use gny.Orm.Tracker.{
  Tracker, get_tracking_entity, track_persistent, track_new, track_modify, track_delete,
  begin_confirm, confirm, cancel_confirm, reject_changes,
}
use gny.Orm.Versions.{accept_changes, init_version, get_changes_until, rollback_versions}

-- What the database answers. `plus_text` is BigNumber's sum of two decimal texts, and `plus` JavaScript's `+` on
-- two values of other kinds.
pub record Database : Type 0 where
  pub rows : ModelSchema → Entity → List Entity
  pub write : List EntityChanges → Result (Unit {0})
  pub take_back : List EntityChanges → Result (Unit {0})
  pub load_history : ℤ → ℤ → Map ℤ (List EntityChanges)
  pub plus_text : String → String → String
  pub plus : Value → Value → Value

one_row : List Entity → Result (Option Entity)
one_row [] = ok none
one_row (e ∷ []) = ok (some e)
one_row (e ∷ d ∷ rest) = err "entity key is duplicated"

module _ (l : Lru) (schemas : Map String ModelSchema) where
  pub record Session : Type 0 where
    pub tracker : Tracker l schemas
    pub session_serial : ℤ
    pub unconfirmed_locks : List String
    pub confirmed_locks : List String

  -- `initSerial(serial)`
  abbrev pub init_serial : Database → ℤ → Session → Session
  init_serial db serial s =
      let s' = record s { session_serial = serial } in
      if leb_ℤ (pos 0) serial
      then record s' { tracker = init_version l schemas db.load_history serial s'.tracker }
      else s'

  abbrev pub on_tracker :
      Result (Unit {0}) × Tracker l schemas → Session → Result (Unit {0}) × Session
  on_tracker (result, t) s = (result, record s { tracker = t })

  -- `create(schema, entity)`
  unfoldable pub create_entity : ModelSchema → Entity → Session → Result (Unit {0}) × Session
  create_entity schema e s =
      let key = get_normalized_primary_key schema e in
      and_then
        (
          throw_if (key == [] || not (is_valid_primary_key schema key))
                "entity must contains primary key"
              >> (get_entity l schemas schema.model_name key s.tracker.caches >>= λ found.
                  throw_if (is_some found) "entity exists already"),
          s,
        )
        (λ _ s'. on_tracker (track_new l schemas schema e s'.tracker) s')

  abbrev get_resolved : ModelSchema → ResolvedKey → Caches l schemas → Result (Option Entity)
  get_resolved schema (primary k) c = get_entity l schemas schema.model_name k c
  get_resolved schema (unique name k) c = get_unique_entity l schemas schema.model_name name k c

  abbrev key_of : ResolvedKey → Entity
  key_of (primary k) = k
  key_of (unique name k) = k

  -- `getCached(schema, keyvalue)`
  unfoldable pub get_cached : ModelSchema → Entity → Caches l schemas → Result (Option Entity)
  get_cached schema key c = resolve_key schema key >>= λ resolved.
      or_throw resolved "no primary key of entity found" >>= λ k.
      get_tracking_entity l schemas schema (key_of k) c >>= λ found. elim found [
        | some e ↦ ok (some e)
        | none ↦ get_resolved schema k c
      ]

  -- `loadEntityByKey(schema, obj)`
  unfoldable pub load_entity_by_key : Database → ModelSchema → Entity → Result (Option Entity)
  unfolding one_row
  load_entity_by_key db schema key = resolve_key schema key >>= λ resolved.
      or_throw resolved "Cannot read property 'key' of undefined" >>= λ k.
      one_row (db.rows schema (key_of k))

  -- What a call finds, or why it throws, and the session after it: an entity from the database is cached.
  abbrev tracked_row : ModelSchema → Option Entity → Session → Result (Option Entity) × Session
  tracked_row schema none s = (ok none, s)
  tracked_row schema (some e) s =
      let (result, c) = track_persistent l schemas schema e s.tracker.caches in
      (result >>= λ _. ok (some e), record s { tracker = record s.tracker { caches = c } })

  abbrev from_database :
      Database → ModelSchema → Entity → Session → Result (Option Entity) × Session
  from_database db schema key s = elim (load_entity_by_key db schema key) [
    | err message ↦ (err message, s)
    | ok row ↦ tracked_row schema row s
  ]

  -- `load(schema, obj)`; the copies that it makes of an entity are the entity.
  unfoldable pub load : Database → ModelSchema → Entity → Session → Result (Option Entity) × Session
  load db schema key s = elim (get_cached schema key s.tracker.caches) [
    | err message ↦ (err message, s)
    | ok (some e) ↦ (ok (some e), s)
    | ok none ↦ from_database db schema key s
  ]

  -- `ensureEntityTracking(schema, key)`
  unfoldable pub ensure_entity_tracking :
      Database → ModelSchema → Entity → Session → Result Entity × Session
  ensure_entity_tracking db schema key s =
      let (found, s') = load db schema key s in (found >>= λ e. or_throw e "Entity not found", s')

  -- `update(schema, obj, modifier)`
  unfoldable pub update :
      Database → ModelSchema → Entity → Entity → Session → Result (Unit {0}) × Session
  update db schema key modifier s =
      and_then (ensure_entity_tracking db schema key s)
        (λ e s'. on_tracker (track_modify l schemas schema e modifier s'.tracker) s')

  abbrev increased : Database → Value → Value → Value
  increased db (text a) (text b) = text (db.plus_text a b)
  increased db a undefined = a
  increased db a b = db.plus a b

  abbrev sums : Database → Entity → Entity → Entity
  sums db [] e = []
  sums db ((name, v) ∷ by) e = (name, increased db v (property name e)) ∷ sums db by e

  -- `increase(schema, keyObj, obj)`
  unfoldable pub increase :
      Database → ModelSchema → Entity → Entity → Session → Result (Unit {0}) × Session
  increase db schema key by s =
      and_then (ensure_entity_tracking db schema key s)
        (λ e s'. on_tracker (track_modify l schemas schema e (sums db by e) s'.tracker) s')

  -- `delete(schema, condition)`
  unfoldable pub delete_entity :
      Database → ModelSchema → Entity → Session → Result (Unit {0}) × Session
  delete_entity db schema key s =
      and_then (ensure_entity_tracking db schema key s)
        (λ e s'. on_tracker (track_delete l schemas schema e s'.tracker) s')

  -- `lockInThisSession(lockname, option)`
  unfoldable pub lock_in_this_session : String → Bool → Session → Result Bool × Session
  lock_in_this_session name option s =
      if not (contains s.confirmed_locks name || contains s.unconfirmed_locks name)
      then (
        ok true,
        if s.tracker.confirming
            then record s { unconfirmed_locks = s.unconfirmed_locks ++ name ∷ [] }
            else record s { confirmed_locks = s.confirmed_locks ++ name ∷ [] },
      )
      else (if option then ok false else err "Lock name exists already", s)

  abbrev pub is_locked : String → Session → Bool
  is_locked name s = contains s.confirmed_locks name || contains s.unconfirmed_locks name

  -- `beginEntityTransaction()`
  abbrev pub begin_entity_transaction : Session → Session
  begin_entity_transaction s = record s { tracker = begin_confirm l schemas s.tracker }

  -- `commitEntityTransaction()`; a set keeps one of each lock.
  abbrev pub commit_entity_transaction : Session → Session
  commit_entity_transaction s = record s {
    tracker = confirm l schemas s.tracker;
    confirmed_locks = s.confirmed_locks ++ s.unconfirmed_locks;
  }

  -- `rollbackEntityTransaction()`
  unfoldable pub rollback_entity_transaction : Session → Result (Unit {0}) × Session
  rollback_entity_transaction s =
      and_then (on_tracker (cancel_confirm l schemas s.tracker) s)
        (λ _ s'. (ok tt, record s' { unconfirmed_locks = [] }))

  abbrev clear_locks : Session → Session
  clear_locks s = record s { unconfirmed_locks = []; confirmed_locks = [] }

  abbrev written : ℤ → Result (Unit {0}) → Session → Result (Unit {0}) × Session
  written height (ok done) s = (
    ok tt,
    record (clear_locks s) {
      tracker = accept_changes l schemas height s.tracker;
      session_serial = height;
    },
  )
  written height (err message) s =
      and_then (on_tracker (reject_changes l schemas s.tracker) s) (λ _ s'. (err message, s'))

  -- `saveChanges(height)`; without a height the serial is counted on.
  unfoldable pub save_changes : Database → Option ℤ → Session → Result (Unit {0}) × Session
  save_changes db height s =
      let s' = elim height as (λ _. Session) [
        | none ↦ record s { session_serial = s.session_serial +ℤ pos 1 }
        | some h ↦ s
      ] in
      let real = elim height as (λ _. ℤ) [ none ↦ s.session_serial +ℤ pos 1 | some h ↦ h ] in
      let s'' = commit_entity_transaction s' in
      written real (db.write s''.tracker.confirmed_changes) s''

  abbrev pub taken_back : Database → ℤ → Session → Result (Unit {0}) × Session
  taken_back db height s = and_then (on_tracker (reject_changes l schemas s.tracker) s) (λ _ s1.
      and_then
        (on_tracker (rollback_versions l schemas db.load_history (height +ℤ pos 1) s1.tracker) s1)
        (λ _ s2. (ok tt, record (clear_locks s2) { session_serial = height })))

  -- `rollbackChanges(height)`
  unfoldable pub rollback_changes : Database → ℤ → Session → Result (Unit {0}) × Session
  rollback_changes db height s =
      if ltb_ℤ s.session_serial height
      then (ok tt, s)
      else (let (changes, t) =
            get_changes_until l schemas db.load_history (height +ℤ pos 1) s.tracker in
          and_then (db.take_back changes, record s { tracker = t }) (λ _. taken_back db height))
