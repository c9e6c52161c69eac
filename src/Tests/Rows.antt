-- ===== src/Tests/Rows.antt =====
-- A cache, a model, rows, a session and a database, which the tests of Orm share.
use gny.Prelude.{String, refl, true, false, [], ◌∷◌, nat_eq, string_eq}
use gny.Prelude.Int.{pos, int_eq}
use gny.Prelude.Map.{Map, lookup, has, insert, erase, lookup-insert, lookup-erase}
use gny.Interfaces.{ok}
use gny.Orm.Entity.{Entity, undefined, text, number, entity_eq}
use gny.Orm.Schema.{MetaSchema, ModelSchema, unset, parse_properties}
use gny.Orm.UniquedCache.{Lru, IsLru}
use gny.Orm.Tracker.{Tracker, new_tracker}
use gny.Orm.Tracker.Undo.{IsModel}
use gny.Orm.Session.{Database, Session}

-- A cache that holds what it gets, as an association list.
abbrev pub lru : Lru
lru = record {
  Cache = Map Entity Entity;
  new = λ max. [];
  get = lookup;
  has = has;
  set = insert;
  del = erase;
  entries = λ c. c;
}

pub lru-IsLru : IsLru lru
unfolding lookup
lru-IsLru = record {
  get-new = λ max k. refl;
  has-get = λ k c. refl;
  get-set = lookup-insert;
  get-del = lookup-erase;
}

abbrev pub delegates : MetaSchema
delegates = record {
  name = "Delegate";
  indices =
      record { is_unique = false; first = "address"; others = [] }
      ∷ record { is_unique = true; first = "username"; others = [] }
      ∷ [];
  columns =
      record { name = "address"; default = undefined }
      ∷ record { name = "username"; default = undefined }
      ∷ record { name = "votes"; default = number (pos 0) }
      ∷ record { name = "_version_"; default = undefined }
      ∷ [];
  memory = false;
  max_cached_count = unset;
}

abbrev pub schema : ModelSchema
schema = parse_properties delegates

abbrev pub schemas : Map String ModelSchema
schemas = ("Delegate", schema) ∷ []

pub schema-IsModel : IsModel lru lru-IsLru schemas schema
unfolding lookup parse_properties
schema-IsModel = record {
  known = refl;
  listed = refl;
  unversioned_indexes = refl;
  unversioned_key = refl;
}

abbrev pub alice : Entity
alice = ("address", text "G1") ∷ ("username", text "alice") ∷ []

abbrev pub alice_row : Entity
alice_row =
    ("address", text "G1")
    ∷ ("username", text "alice")
    ∷ ("votes", number (pos 0))
    ∷ ("_version_", number (pos 1))
    ∷ []

abbrev pub start : Tracker lru schemas
start = new_tracker lru schemas 10

abbrev pub session : Session lru schemas
session = record {
  tracker = start;
  session_serial = pos 3;
  unconfirmed_locks = [];
  confirmed_locks = "block" ∷ [];
}

abbrev pub database : Database
database = record {
  rows = λ schema key. [];
  write = λ changes. ok tt;
  take_back = λ changes. ok tt;
  load_history = λ from until. [];
  plus_text = λ a b. a;
  plus = λ a b. a;
}
