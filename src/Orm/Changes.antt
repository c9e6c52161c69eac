-- ===== src/Orm/Changes.antt =====
-- packages/database-postgres/src/basicEntityTracker.ts: the records of changes of rows, and how they are built.
use gny.Prelude.{
  zero, suc, ◌+◌, ◌-◌, String, not, ◌&&◌, List, [], ◌∷◌, ◌++◌, arith, if◌then◌else◌, ◌==◌, nat_eq,
  string_eq, option_eq, set,
}
use gny.Prelude.Int.{ℤ, pos, ◌-ℤ◌, int_eq}
use gny.Prelude.Map.{insert}
pub mod Restored
use gny.Orm.Entity.{Value, undefined, number, Entity, property, value_eq}
use gny.Orm.Schema.{ModelSchema, is_valid_property, get_normalized_primary_key}
use gny.Orm.EntityCache.{PropertyValue, assign}

pub data EntityChangeType : Type 0 where
  new modify delete : EntityChangeType

pub record PropertyChange : Type 0 where
  pub name : String
  pub original : Value
  pub current : Value

pub record EntityChanges : Type 0 where
  pub kind : EntityChangeType
  pub db_version : ℤ
  pub model : String
  pub primary_key : Entity
  pub property_changes : List PropertyChange

abbrev pub version_property : String
version_property = "_version_"

-- `entity._version_`, a number in every row
abbrev pub version_of : Entity → ℤ
version_of e = elim (property version_property e) [ number n ↦ n | _ ↦ pos 0 ]

abbrev pub set_version : ℤ → Entity → Entity
set_version n e = insert version_property (number n) e

-- The properties of an object that the model has, as they are now.
abbrev pub created : ModelSchema → Entity → List PropertyChange
created schema [] = []
created schema ((name, v) ∷ e) =
    let rest = created schema e in
    if is_valid_property schema name
    then record { name = name; original = undefined; current = v } ∷ rest
    else rest

-- `buildCreateChanges(schema, obj)`
abbrev pub build_create_changes : ModelSchema → Entity → EntityChanges
build_create_changes schema e = record {
  kind = new;
  db_version = pos 1;
  model = schema.model_name;
  primary_key = get_normalized_primary_key schema e;
  property_changes = created schema e;
}

abbrev pub changed : Entity → List PropertyValue → List PropertyChange
changed e [] = []
changed e (p ∷ ps) =
    record { name = p.name; original = property p.name e; current = p.value } ∷ changed e ps

-- `buildModifyChanges(schema, currentObj, changes, dbVersion)`
abbrev pub build_modify_changes : ModelSchema → Entity → List PropertyValue → ℤ → EntityChanges
build_modify_changes schema e values version = record {
  kind = modify;
  db_version = version;
  model = schema.model_name;
  primary_key = get_normalized_primary_key schema e;
  property_changes =
      changed e values
      ++ record {
        name = version_property;
        original = number (version -ℤ pos 1);
        current = number version;
      }
        ∷ [];
}

abbrev pub deleted : ModelSchema → Entity → List PropertyChange
deleted schema [] = []
deleted schema ((name, v) ∷ e) =
    let rest = deleted schema e in
    if is_valid_property schema name
    then record { name = name; original = v; current = undefined } ∷ rest
    else rest

-- `buildDeleteChanges(schema, value, dbVersion)`
abbrev pub build_delete_changes : ModelSchema → Entity → ℤ → EntityChanges
build_delete_changes schema e version = record {
  kind = delete;
  db_version = version;
  model = schema.model_name;
  primary_key = get_normalized_primary_key schema e;
  property_changes = deleted schema e;
}

-- The modifier's properties that the model has, but for the version, and that change something.
abbrev pub changing : ModelSchema → Entity → Entity → List PropertyValue
changing schema e [] = []
changing schema e ((name, v) ∷ modifier) =
    let rest = changing schema e modifier in
    if is_valid_property schema name && not (name == version_property) && not (property name e == v)
    then record { name = name; value = v } ∷ rest
    else rest

abbrev pub originals : List PropertyChange → List PropertyValue
originals [] = []
originals (c ∷ cs) = record { name = c.name; value = c.original } ∷ originals cs

-- `makeJsonObject(changes, one => one.name, one => one.original)`
abbrev pub make_json_object : List PropertyValue → Entity
make_json_object values = assign values []

-- The last element goes: `pop()` takes from the end, where `push` puts.
abbrev pub reversed : List EntityChanges → List EntityChanges
reversed [] = []
reversed (c ∷ cs) = reversed cs ++ c ∷ []
