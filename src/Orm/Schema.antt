-- ===== src/Orm/Schema.antt =====
-- packages/database-postgres/src/modelSchema.ts, `class ModelSchema`: the columns, keys and unique indexes of
-- a model. Keys are objects here; a primary key that is a bare text or number is left out.
use gny.Prelude.{
  ℕ, String, ◌≡◌, ap, Bool, true, false, not, ◌&&◌, ◌||◌, Option, none, some, List, [], ◌∷◌, ◌++◌,
  ltb, leb, if◌then◌else◌, ◌==◌, nat_eq, string_eq, bool_eq, option_eq, option_beq, length,
  contains,
}
use gny.Prelude.Int.{int_eq}
use gny.Prelude.Map.{insert, keys}
use gny.Interfaces.{Result, ok, ◌>>=◌, ◌>>◌, throw_if}
use gny.Orm.Entity.{Value, undefined, null, Entity, property, partial_copy, value_eq}

-- `maxCachedCount`, which may be undefined
pub data MaxCached : Type 0 where
  unset infinity : MaxCached
  count : ℕ → MaxCached

-- `OneIndex`: it has a first column.
pub record OneIndex : Type 0 where
  pub is_unique : Bool
  pub first : String
  pub others : List String

-- `NormalColumn`; a column without a default has the default `undefined`.
pub record NormalColumn : Type 0 where
  pub name : String
  pub default : Value

pub record MetaSchema : Type 0 where
  pub name : String
  pub indices : List OneIndex
  pub columns : List NormalColumn
  pub memory : Bool
  pub max_cached_count : MaxCached

pub record ModelIndex : Type 0 where
  pub name : String
  pub properties : List String

pub record ModelSchema : Type 0 where
  pub model_name : String
  pub memory : Bool
  pub max_cached_count : MaxCached
  pub unique_properties : List String
  pub all_properties : List String
  pub unique_indexes : List ModelIndex
  pub primary_key : Option String
  pub composite_keys : List String
  pub columns : List NormalColumn

abbrev indexes_where : Bool → List OneIndex → List ModelIndex
indexes_where unique [] = []
indexes_where unique (i ∷ is) =
    let rest = indexes_where unique is in
    if i.is_unique == unique
    then record { name = i.first; properties = i.first ∷ i.others } ∷ rest
    else rest

abbrev column_names : List NormalColumn → List String
column_names [] = []
column_names (c ∷ cs) = c.name ∷ column_names cs

abbrev index_names : List ModelIndex → List String
index_names [] = []
index_names (i ∷ is) = i.name ∷ index_names is

abbrev pub index_properties : List ModelIndex → List String
index_properties [] = []
index_properties (i ∷ is) = i.properties ++ index_properties is

abbrev head : List String → Option String
head [] = none
head (name ∷ names) = some name

-- `parseProperties()`
unfoldable pub parse_properties : MetaSchema → ModelSchema
parse_properties meta =
    let unique = indexes_where true meta.indices in
    let normal = index_names (indexes_where false meta.indices) in
    record {
      model_name = meta.name;
      memory = meta.memory;
      max_cached_count = if meta.memory then infinity else meta.max_cached_count;
      unique_properties = index_properties unique;
      all_properties = column_names meta.columns;
      unique_indexes = unique;
      primary_key = head normal;
      composite_keys = if leb 2 (length normal) then normal else [];
      columns = meta.columns;
    }

abbrev pub has_unique_property : ModelSchema → List String → Bool
has_unique_property s [] = false
has_unique_property s (name ∷ names) =
    contains s.unique_properties name || has_unique_property s names

abbrev pub is_valid_property : ModelSchema → String → Bool
is_valid_property s name = contains s.all_properties name

abbrev pub is_composite_key : ModelSchema → Bool
is_composite_key s = ltb 1 (length s.composite_keys)

-- The properties of the primary key.
abbrev pub key_names : ModelSchema → List String
key_names s =
    if is_composite_key s
    then s.composite_keys
    else elim s.primary_key [ none ↦ [] | some name ↦ name ∷ [] ]

-- `getNormalizedPrimaryKey(obj)`
abbrev pub get_normalized_primary_key : ModelSchema → Entity → Entity
get_normalized_primary_key s e = partial_copy e (key_names s)

abbrev includes : List String → List String → Bool
includes xs [] = true
includes xs (y ∷ ys) = contains xs y && includes xs ys

-- `0 === lodash.xor(xs, ys).length`
abbrev pub same_names : List String → List String → Bool
same_names xs ys = includes xs ys && includes ys xs

-- `isValidPrimaryKey(key)`
unfoldable pub is_valid_primary_key : ModelSchema → Entity → Bool
is_valid_primary_key s key =
    not (is_composite_key s) && option_beq (head (keys key)) s.primary_key && length (keys key) == 1
    || same_names (keys key) s.composite_keys

pub data ResolvedKey : Type 0 where
  primary : Entity → ResolvedKey
  unique : String → Entity → ResolvedKey

abbrev find_index : List ModelIndex → List String → Option String
find_index [] names = none
find_index (i ∷ is) names =
    let rest = find_index is names in if same_names i.properties names then some i.name else rest

-- `getUniqueName(data)`, where `none` stands for the name of the primary key
unfoldable pub get_unique_name : ModelSchema → Entity → Option (Option String)
get_unique_name s key =
    if is_valid_primary_key s key
    then some none
    else if option_beq (head (keys key)) s.primary_key && length (keys key) == 1
    then some none
    else elim (find_index s.unique_indexes (keys key)) [
      | none ↦ none
      | some name ↦ some (some name)
    ]

-- `setPrimaryKey({}, key)`
unfoldable pub set_primary_key : ModelSchema → Entity → Result Entity
set_primary_key s key =
    throw_if (not (is_valid_primary_key s key)) "Invalid PrimaryKey of model"
    >> ok (partial_copy key (key_names s))

-- `resolveKey(data)`
unfoldable pub resolve_key : ModelSchema → Entity → Result (Option ResolvedKey)
resolve_key s key = elim (get_unique_name s key) [
  | none ↦ ok none
  | some none ↦ set_primary_key s key >>= λ k. ok (some (primary k))
  | some (some name) ↦ ok (some (unique name key))
]

abbrev is_missing : Value → Bool
is_missing v = v == null || v == undefined

-- `setDefaultValues(data)`
unfoldable pub set_default_values : List NormalColumn → Entity → Entity
set_default_values [] e = e
set_default_values (c ∷ cs) e = set_default_values cs (
    if not (c.default == undefined) && is_missing (property c.name e)
    then insert c.name c.default e
    else e)

get_unique_name-primary :
    (s : ModelSchema) (key : Entity)
    → is_valid_primary_key s key ≡ true
    → get_unique_name s key ≡ some none
unfolding get_unique_name
get_unique_name-primary s key valid = rw (valid, get_unique_name)

set_primary_key-ok :
    (s : ModelSchema) (key : Entity)
    → is_valid_primary_key s key ≡ true
    → partial_copy key (key_names s) ≡ key
    → set_primary_key s key ≡ ok key
unfolding set_primary_key
set_primary_key-ok s key valid whole = rw (valid, set_primary_key) (ap ok whole)

-- A primary key that is given whole is resolved to itself.
pub resolve_key-primary :
    (s : ModelSchema) (key : Entity)
    → is_valid_primary_key s key ≡ true
    → partial_copy key (key_names s) ≡ key
    → resolve_key s key ≡ ok (some (primary key))
unfolding resolve_key
resolve_key-primary s key valid whole =
    rw (get_unique_name-primary s key valid, resolve_key)
      (ap (λ r. r >>= λ k. ok (some (primary k))) (set_primary_key-ok s key valid whole))
