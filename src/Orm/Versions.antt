-- ===== src/Orm/Versions.antt =====
-- packages/database-postgres/src/basicEntityTracker.ts: the history of `class BasicEntityTracker`, by versions, and
-- `rollbackChanges`. Where the database has the history, `load` reads it.
use gny.Prelude.{
  ℕ, zero, suc, ◌+◌, String, true, false, ◌||◌, none, some, List, [], ◌∷◌, ◌++◌, if◌then◌else◌,
  nat_eq, string_eq, option_eq,
}
use gny.Prelude.Int.{ℤ, pos, negsuc, ◌+ℤ◌, ◌-ℤ◌, ltb_ℤ, leb_ℤ, eqb_ℤ, abs, int_eq}
use gny.Prelude.Map.{Map, lookup, insert, erase}
pub mod Kept
use gny.Interfaces.{Result, ok, err, and_then}
use gny.Orm.Schema.{ModelSchema}
use gny.Orm.UniquedCache.{Lru}
use gny.Orm.Changes.{EntityChanges}
use gny.Orm.Tracker.{Tracker, undo_changes}

abbrev pub min_ℤ : ℤ → ℤ → ℤ
min_ℤ a b = if leb_ℤ a b then a else b

abbrev pub max_ℤ : ℤ → ℤ → ℤ
max_ℤ a b = if leb_ℤ a b then b else a

-- The loop of `clearHistoryBefore`, for a number of versions from the given one on
unfoldable pub erase_versions : ℕ → ℤ → Map ℤ (List EntityChanges) → Map ℤ (List EntityChanges)
erase_versions zero version history = history
erase_versions (suc n) version history = erase_versions n (version +ℤ pos 1) (erase version history)

-- The loop of `getChangesUntil`
unfoldable pub collect : ℕ → ℤ → Map ℤ (List EntityChanges) → List EntityChanges
collect zero version history = []
collect (suc n) version history =
    let rest = collect n (version +ℤ pos 1) history in
    elim (lookup version history) [ none ↦ rest | some changes ↦ changes ++ rest ]

module _ (l : Lru) (schemas : Map String ModelSchema) where
  -- `attachHistory(history)`
  unfoldable pub attach_history : Map ℤ (List EntityChanges) → Tracker l schemas → Tracker l schemas
  attach_history [] t = t
  attach_history ((version, changes) ∷ history) t = attach_history history (record t {
    history = insert version changes t.history;
    min_version = if ltb_ℤ t.min_version (pos 0) then version else min_ℤ version t.min_version;
    current_version = max_ℤ version t.current_version;
  })

  -- `clearHistoryBefore(height)`; the rounds of its loop are counted beforehand.
  unfoldable pub clear_history_before : ℤ → Tracker l schemas → Tracker l schemas
  clear_history_before height t =
      if leb_ℤ height t.min_version || ltb_ℤ t.current_version height then t else record t {
        history = erase_versions (abs (height -ℤ t.min_version)) t.min_version t.history;
        min_version = height;
      }

  -- `removeExpiredHistory()`
  unfoldable pub remove_expired_history : Tracker l schemas → Tracker l schemas
  remove_expired_history t =
      if ltb_ℤ (pos t.max_history_versions_hold) (t.current_version -ℤ t.min_version)
      then clear_history_before (t.current_version -ℤ pos t.max_history_versions_hold) t
      else t

  -- `acceptChanges(height)`
  unfoldable pub accept_changes : ℤ → Tracker l schemas → Tracker l schemas
  accept_changes height t =
      let t' = remove_expired_history (record t {
        history = insert height t.confirmed_changes t.history;
        confirmed_changes = [];
      }) in
      record t' {
        min_version = if eqb_ℤ t'.min_version (negsuc 0) then height else t'.min_version;
        current_version = height;
      }

  module _ (load : ℤ → ℤ → Map ℤ (List EntityChanges)) where
    -- `initVersion(version)`
    abbrev pub init_version : ℤ → Tracker l schemas → Tracker l schemas
    init_version version t =
        if eqb_ℤ t.current_version (negsuc 0) then attach_history (load version version) t else t

    -- `loadHistoryUntil(height)`
    unfoldable pub load_history_until : ℤ → Tracker l schemas → Tracker l schemas
    load_history_until height t =
        if ltb_ℤ height t.min_version then attach_history (load height t.min_version) t else t

    -- `getChangesUntil(height)`
    unfoldable pub get_changes_until :
        ℤ → Tracker l schemas → List EntityChanges × Tracker l schemas
    get_changes_until height t =
        let t' = load_history_until height t in
        let rounds =
          if leb_ℤ height t'.current_version then abs (t'.current_version -ℤ height) + 1 else 0 in
        (collect rounds height t'.history, t')

    -- One round of `rollbackChanges`: `undoChanges` empties the entry of the history, and throws if there is none.
    abbrev pub undo_version : Tracker l schemas → Result (Unit {0}) × Tracker l schemas
    undo_version t = elim (lookup t.current_version t.history) [
      | none ↦ (err "Cannot read property 'pop' of undefined", t)
      | some changes ↦
          let (result, left, s) = undo_changes l schemas changes t.caches in
          and_then
            (result, record t { caches = s; history = insert t.current_version left t.history })
            (λ _ t'. (ok tt, record t' { current_version = t'.current_version -ℤ pos 1 }))
    ]

    -- Its loop, with the number of rounds that are left at most
    unfoldable pub undo_versions : ℕ → ℤ → Tracker l schemas → Result (Unit {0}) × Tracker l schemas
    undo_versions zero height t = (ok tt, t)
    undo_versions (suc n) height t = elim (leb_ℤ height t.current_version) [
      | true ↦ and_then (undo_version t) (λ _. undo_versions n height)
      | false ↦ (ok tt, t)
    ]

    -- `rollbackChanges(toBlockHeight)`
    unfoldable pub rollback_versions : ℤ → Tracker l schemas → Result (Unit {0}) × Tracker l schemas
    rollback_versions height t =
        if ltb_ℤ height t.current_version
        then (ok tt, t)
        else (let t' = load_history_until height t in
            and_then (undo_versions (abs (t'.current_version -ℤ height) + 1) height t')
              (λ _ u. (ok tt, record u { min_version = min_ℤ u.min_version u.current_version })))
