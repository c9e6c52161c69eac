-- ===== src/Orm/Session/Rollback.antt =====
-- packages/database-postgres/src/dbSession.ts: `rollbackChanges` to a height more than one version back.
use gny.Prelude.{
  String, ◌≡◌, refl, ◌∙◌, inl, inr, true, false, List, [], ◌∷◌, arith, if◌then◌else◌, nat_eq,
  string_eq, option_eq, Bool-cases,
}
use gny.Prelude.Int.{ℤ, pos, ◌+ℤ◌, ltb_ℤ, leb_ℤ, int_eq}
use gny.Prelude.Map.{Map, insert}
use gny.Interfaces.{ok}
use gny.Orm.Schema.{ModelSchema}
use gny.Orm.UniquedCache.{Lru}
use gny.Orm.Changes.{EntityChanges}
use gny.Orm.Tracker.{Tracker, undo_latest, cancel_confirm, reject_changes}
use gny.Orm.Versions.{
  attach_history, load_history_until, get_changes_until, rollback_versions, max_ℤ,
}
use gny.Orm.Session.{Database, Session, taken_back, rollback_changes}

-- Nothing is pending: all changes are in the history.
pub record IsSaved {l : Lru} {schemas : Map String ModelSchema} (t : Tracker l schemas)
    : Type 0 where
  pub unconfirmed : t.unconfirmed_changes ≡ []
  pub confirmed : t.confirmed_changes ≡ []

lt_max : (v b c : ℤ) → ltb_ℤ v b ≡ true → ltb_ℤ v (max_ℤ c b) ≡ true
lt_max v b c h = ground arith

module _ (l : Lru) (schemas : Map String ModelSchema) where
  -- What reading more history leaves alone.
  record Extends (t u : Tracker l schemas) : Type 0 where
    pub caches : u.caches ≡ t.caches
    pub unconfirmed : u.unconfirmed_changes ≡ t.unconfirmed_changes
    pub confirmed : u.confirmed_changes ≡ t.confirmed_changes
    pub later : (v : ℤ) → ltb_ℤ v t.current_version ≡ true → ltb_ℤ v u.current_version ≡ true

  attach_history-Extends :
      (history : Map ℤ (List EntityChanges)) (t : Tracker l schemas)
      → Extends t (attach_history l schemas history t)
  unfolding attach_history
  attach_history-Extends [] t = record {
    caches = refl;
    unconfirmed = refl;
    confirmed = refl;
    later = λ v h. h;
  }
  attach_history-Extends ((version, changes) ∷ history) t =
      let rest = attach_history-Extends history (record t {
        history = insert version changes t.history;
        min_version =
            if ltb_ℤ t.min_version (pos 0)
            then version
            else (if leb_ℤ version t.min_version then version else t.min_version);
        current_version = max_ℤ version t.current_version;
      }) in
      record {
        caches = rest.caches;
        unconfirmed = rest.unconfirmed;
        confirmed = rest.confirmed;
        later = λ v h. rest.later v (lt_max v t.current_version version h);
      }

  load_history_until-Extends :
      (load : ℤ → ℤ → Map ℤ (List EntityChanges)) (height : ℤ) (t : Tracker l schemas)
      → Extends t (load_history_until l schemas load height t)
  unfolding load_history_until
  load_history_until-Extends load height t = elim (Bool-cases (ltb_ℤ height t.min_version)) [
    | inl early ↦
        rw (early, load_history_until) (attach_history-Extends (load height t.min_version) t)
    | inr late ↦
        rw (late, load_history_until)
          (record { caches = refl; unconfirmed = refl; confirmed = refl; later = λ v h. h })
  ]

  -- With nothing pending, rejecting changes only ends a contract.
  reject_changes_saved :
      (t : Tracker l schemas)
      → IsSaved t
      → reject_changes l schemas t
        ≡ (ok tt, record t { confirming = false; unconfirmed_changes = []; confirmed_changes = [] })
  unfolding reject_changes cancel_confirm undo_latest
  reject_changes_saved t saved = rw (saved.unconfirmed, saved.confirmed)

  taken_back_ends :
      (db : Database) (height : ℤ) (s : Session l schemas)
      → IsSaved s.tracker
      → ltb_ℤ (height +ℤ pos 1) s.tracker.current_version ≡ true
      → taken_back l schemas db height s ≡ (
        ok tt,
        record s {
          tracker = record s.tracker {
            confirming = false;
            unconfirmed_changes = [];
            confirmed_changes = [];
          };
          unconfirmed_locks = [];
          confirmed_locks = [];
          session_serial = height;
        },
      )
  unfolding rollback_versions
  taken_back_ends db height s saved far = rw (reject_changes_saved s.tracker saved) (rw far refl)

  -- `rollbackChanges` of a session undoes nothing in the caches, where it goes back by two versions or more. With
  -- nothing pending, and a database that takes the changes back, it goes through and counts the session at the
  -- height, but the caches are what they were.
  pub rollback_changes_keeps_caches :
      (db : Database) (height : ℤ) (s : Session l schemas)
      → IsSaved s.tracker
      → ltb_ℤ s.session_serial height ≡ false
      → ltb_ℤ (height +ℤ pos 1) s.tracker.current_version ≡ true
      → ((changes : List EntityChanges) → db.take_back changes ≡ ok tt)
      → ((rollback_changes l schemas db height s).0 ≡ ok tt)
        × ((rollback_changes l schemas db height s).1.session_serial ≡ height)
        × ((rollback_changes l schemas db height s).1.tracker.caches ≡ s.tracker.caches)
  unfolding rollback_changes get_changes_until
  rollback_changes_keeps_caches db height s saved reached far taken =
      let h' = height +ℤ pos 1 in
      let x = load_history_until-Extends db.load_history h' s.tracker in
      let u = record s { tracker = load_history_until l schemas db.load_history h' s.tracker } in
      let ends =
        taken_back_ends db height u
          (record {
            unconfirmed = x.unconfirmed ∙ saved.unconfirmed;
            confirmed = x.confirmed ∙ saved.confirmed;
          })
          (x.later h' far) in
      rw (reached, rollback_changes, taken _, ends) (refl, refl, x.caches)
