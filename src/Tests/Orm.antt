-- ===== src/Tests/Orm.antt =====
-- The theorems on the caches, the tracker and the session of database-postgres, at concrete data.
use gny.Prelude.{
  String, ◌≡◌, refl, true, false, none, some, List, [], ◌∷◌, nat_eq, string_eq, ◌⊎◌, inl, inr,
  arith, ◌↔◌,
}
use gny.Prelude.Int.{pos, int_eq, ◌+ℤ◌}
use gny.Prelude.Map.{lookup, insert, erase}
use gny.Interfaces.{ok, err}
use gny.Orm.Entity.{Entity, text, entity_eq, entity_eqb, value_eqb, json}
use gny.Orm.Schema.{
  parse_properties, is_valid_primary_key, get_unique_name, set_primary_key, resolve_key,
  is_valid_property, set_default_values,
}
use gny.Orm.UniquedCache.{
  UniqueIndex, is_full, index_key, UniquedCache, new_cache, evit, set_entity, get_unique,
}
use gny.Orm.UniquedCache.Indexed.{IsIndexed, Clashes, with_entry, entity_at}
use gny.Orm.UniquedCache.Lookup.{set_entity_outcome, get_unique_iff}
use gny.Orm.Changes.{build_create_changes}
use gny.Orm.EntityCache.{
  get_model_cache, get_entity, get_unique_entity, put, evit_entity, mutate, refresh_cached,
}
use gny.Orm.EntityCache.View.{IsCaches, new-AllAgree}
use gny.Orm.Tracker.{Tracker, begin_confirm, cancel_confirm, track_new, track_modify, track_delete}
use gny.Orm.Tracker.Likes.{Likes}
use gny.Orm.Versions.{accept_changes}
use gny.Orm.Versions.Kept.{IsKept, accept_changes-IsKept}
use gny.Orm.Tracker.Calls.{Call, creating, modifying, deleting, shown}
use gny.Orm.Tracker.Cancel.{AllFit, IsRestored, run_calls, cancel_confirm_restores}
use gny.Orm.Session.{
  rollback_changes, Session, lock_in_this_session, is_locked, begin_entity_transaction,
  rollback_entity_transaction,
}
use gny.Orm.Session.Rollback.{rollback_changes_keeps_caches}
use gny.Orm.Session.Contract.{
  Step, locking, calling, run_steps, StepsFit, IsSettled, rollback_entity_transaction_restores,
}
use gny.Tests.Rows.{
  lru, lru-IsLru, schema, schemas, schema-IsModel, alice, alice_row, start, session, database,
}

start-IsCaches : IsCaches lru lru-IsLru schemas start.caches
unfolding lookup
start-IsCaches model c h = cc

abbrev calls : List Call
calls = creating schema alice ∷ modifying schema alice_row (("username", text "bob") ∷ []) ∷ []

calls-AllFit : AllFit lru lru-IsLru schemas calls (begin_confirm lru schemas start)
unfolding lookup insert erase parse_properties entity_eqb value_eqb is_valid_primary_key
    get_unique_name set_primary_key resolve_key set_default_values evit set_entity get_unique
    get_model_cache get_entity get_unique_entity put evit_entity mutate refresh_cached track_new
    track_modify
calls-AllFit = ((schema-IsModel, refl, refl), refl, ((schema-IsModel, refl, pos 1, refl), refl, tt))

cancel_confirm_restores_example : IsRestored lru lru-IsLru schemas start (
    cancel_confirm lru schemas
      (run_calls lru lru-IsLru schemas calls (begin_confirm lru schemas start)))
cancel_confirm_restores_example =
    cancel_confirm_restores lru lru-IsLru schemas start calls start-IsCaches calls-AllFit

abbrev steps : List Step
steps =
    locking "basic.account@G1"
    ∷ calling (creating schema alice)
    ∷ calling (deleting schema alice_row)
    ∷ []

abbrev after_steps : Session lru schemas
after_steps = run_steps lru lru-IsLru schemas steps (begin_entity_transaction lru schemas session)

alice_has_no_more : (p : String) → is_valid_property schema p ≡ false → lookup p alice_row ≡ none
unfolding lookup parse_properties
alice_has_no_more p h = ground arith

steps-StepsFit : StepsFit lru lru-IsLru schemas steps (begin_entity_transaction lru schemas session)
unfolding lookup insert erase parse_properties entity_eqb value_eqb is_valid_primary_key
    get_unique_name set_primary_key resolve_key set_default_values evit set_entity get_unique
    get_model_cache get_entity get_unique_entity put evit_entity mutate refresh_cached track_new
    track_modify track_delete lock_in_this_session
steps-StepsFit = (
  tt,
  (
    ((schema-IsModel, refl, refl), refl),
    (
      ((schema-IsModel, refl, refl, (refl, (refl, (refl, (refl, tt)))), alice_has_no_more), refl),
      tt,
    ),
  ),
)

session-IsSettled : IsSettled lru lru-IsLru schemas session
session-IsSettled name h = ground arith

rollback_entity_transaction_restores_example :
    ((rollback_entity_transaction lru schemas after_steps).0 ≡ ok tt)
    × Likes
        (shown lru lru-IsLru schemas
          (rollback_entity_transaction lru schemas after_steps).1.tracker)
        (shown lru lru-IsLru schemas session.tracker)
    × ((name : String)
        → is_locked lru schemas name (rollback_entity_transaction lru schemas after_steps).1
          ≡ is_locked lru schemas name session)
rollback_entity_transaction_restores_example =
    rollback_entity_transaction_restores lru lru-IsLru schemas session steps start-IsCaches
      session-IsSettled steps-StepsFit

abbrev empty_cache : UniquedCache lru
empty_cache = new_cache lru none (record { name = "username"; properties = "username" ∷ [] } ∷ [])

empty_cache-IsIndexed : IsIndexed lru lru-IsLru empty_cache
unfolding lookup
empty_cache-IsIndexed =
    new-AllAgree lru (λ k. none) (record { name = "username"; properties = "username" ∷ [] } ∷ [])
      (λ k. refl)

abbrev alice_key : Entity
alice_key = ("address", text "G1") ∷ []

abbrev with_alice : UniquedCache lru
with_alice = (set_entity lru alice_key alice_row empty_cache).1

set_entity_outcome_example :
    ((k : Entity)
      → entity_at lru lru-IsLru with_alice k
        ≡ with_entry alice_key (some alice_row) (entity_at lru lru-IsLru empty_cache) k)
    × ((((set_entity lru alice_key alice_row empty_cache).0 ≡ ok tt)
          × IsIndexed lru lru-IsLru with_alice)
        ⊎ ((message : String) × ((set_entity lru alice_key alice_row empty_cache).0 ≡ err message)
            × Clashes alice_row
                (with_entry alice_key none (entity_at lru lru-IsLru empty_cache))
                empty_cache.indexes))
set_entity_outcome_example =
    set_entity_outcome lru lru-IsLru alice_key alice_row empty_cache empty_cache-IsIndexed

with_alice-IsIndexed : IsIndexed lru lru-IsLru with_alice
unfolding set_entity lookup insert entity_eqb value_eqb
with_alice-IsIndexed =
    elim (set_entity_outcome lru lru-IsLru alice_key alice_row empty_cache
      empty_cache-IsIndexed).1 [ inl (done, indexed) ↦ indexed | inr (message, failed, clash) ↦ cc ]

abbrev by_username : UniqueIndex
by_username = record {
  name = "username";
  fields = "username" ∷ [];
  index_map = (("username", text "alice") ∷ [], alice_key) ∷ [];
}

get_unique_iff_example :
    (get_unique lru "username" (("username", text "alice") ∷ []) with_alice ≡ ok (some alice_row))
    ↔ ((k : Entity) × (entity_at lru lru-IsLru with_alice k ≡ some alice_row)
        × (is_full by_username.fields alice_row ≡ true)
        × (index_key by_username.fields alice_row ≡ json (("username", text "alice") ∷ [])))
unfolding set_entity lookup insert entity_eqb value_eqb
get_unique_iff_example =
    get_unique_iff lru lru-IsLru "username" (("username", text "alice") ∷ []) alice_row by_username
      with_alice with_alice-IsIndexed refl

-- A block later than the one at height 6 made a row.
abbrev at_height_9 : Session lru schemas
at_height_9 = record session {
  tracker = record start {
    caches = ("Delegate", with_alice) ∷ [];
    history = (pos 8, build_create_changes schema alice ∷ []) ∷ [];
    min_version = pos 5;
    current_version = pos 9;
  };
  session_serial = pos 9;
}

rollback_changes_keeps_caches_example :
    ((rollback_changes lru schemas database (pos 6) at_height_9).0 ≡ ok tt)
    × ((rollback_changes lru schemas database (pos 6) at_height_9).1.session_serial ≡ pos 6)
    × ((rollback_changes lru schemas database (pos 6) at_height_9).1.tracker.caches
        ≡ at_height_9.tracker.caches)
unfolding ◌+ℤ◌
rollback_changes_keeps_caches_example =
    rollback_changes_keeps_caches lru schemas database (pos 6) at_height_9
      (record { unconfirmed = refl; confirmed = refl }) refl refl (λ changes. refl)

-- It is to hold no version beside the current one.
abbrev at_4 : Tracker lru schemas
at_4 = record start {
  history = (pos 3, []) ∷ (pos 4, []) ∷ [];
  confirmed_changes = build_create_changes schema alice ∷ [];
  min_version = pos 3;
  current_version = pos 4;
  max_history_versions_hold = 0;
}

at_4-IsKept : IsKept lru schemas at_4
unfolding lookup ◌+ℤ◌
at_4-IsKept = record {
  started = refl;
  ordered = refl;
  within = λ v h. ground arith;
  bounded = refl;
}

accept_changes-IsKept_example :
    IsKept lru schemas (accept_changes lru schemas (pos 4 +ℤ pos 1) at_4)
    × (lookup (pos 4 +ℤ pos 1) (accept_changes lru schemas (pos 4 +ℤ pos 1) at_4).history
        ≡ some (build_create_changes schema alice ∷ []))
accept_changes-IsKept_example = accept_changes-IsKept lru schemas at_4 at_4-IsKept
