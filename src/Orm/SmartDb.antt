-- ===== src/Orm/SmartDb.antt =====
-- packages/database-postgres/src/smartDB.ts, `class SmartDB`: the session with the cache of blocks, and the tables
-- of blocks and of their changes. What a call throws on its way, hooks and database, is the record Outside; a
-- database that fails to delete is left out, and so are events and the checks of arguments for null.
use gny.Prelude.{
  ℕ, zero, suc, ◌+◌, ◌-◌, ◌/◌, ◌%◌, String, ap, Bool, true, false, not, ◌&&◌, Option, none, some,
  List, [], ◌∷◌, ◌++◌, arith, ltb, leb, if◌then◌else◌, ◌==◌, nat_eq, string_eq, option_eq, is_some,
}
use gny.Prelude.Int.{ℤ, pos, negsuc, ◌+ℤ◌, ◌-ℤ◌, ltb_ℤ, leb_ℤ, abs, int_eq}
use gny.Prelude.Map.{Map, lookup, insert, erase}
pub mod Heights
pub mod Tables
pub mod Commit
use gny.Interfaces.{Block, Transaction, Result, ok, err, and_then, or_throw, throw_if, ◌>>=◌}
use gny.Orm.BlockCache.{BlockCache, push, get, evit_until}
use gny.Orm.Entity.{Entity}
use gny.Orm.Schema.{ModelSchema, is_valid_property, get_normalized_primary_key}
use gny.Orm.UniquedCache.{Lru}
use gny.Orm.Changes.{EntityChanges}
use gny.Orm.Session.{
  Database, Session, create_entity, load as load_row, get_cached, update as update_row,
  increase as increase_row, delete_entity, lock_in_this_session, begin_entity_transaction,
  commit_entity_transaction, rollback_entity_transaction, save_changes, rollback_changes,
}

pub record Outside : Type 0 where
  pub pre_commit_block : Block → Result (Unit {0})
  pub pre_rollback_block : ℤ → ℤ → Result (Unit {0})
  pub insert_block : Block → Result (Unit {0})
  pub insert_history : ℤ → Result (Unit {0})
  pub transactions_at : ℕ → List Transaction

-- The digits of a number as character codes, `n` rounds at most.
unfoldable pub digits : ℕ → ℕ → List ℕ
digits zero m = []
digits (suc n) m =
    let rest = digits n (m / 10) in if ltb m 10 then (48 + m) ∷ [] else rest ++ (48 + m % 10) ∷ []

-- A height as it is in the source, the decimal text.
abbrev pub decimal : ℤ → List ℕ
decimal (pos m) = digits (m + 1) m
decimal (negsuc m) = 45 ∷ digits (m + 2) (m + 1)

-- `a > b` for two texts
abbrev pub comes_after : List ℕ → List ℕ → Bool
comes_after [] b = false
comes_after (x ∷ a) [] = true
comes_after (x ∷ a) (y ∷ b) = let rest = comes_after a b in if x == y then rest else ltb y x

-- `delete().where('height = :height')`
abbrev pub without_height : ℤ → List Block → List Block
without_height height [] = []
without_height height (b ∷ bs) =
    let rest = without_height height bs in if pos b.height == height then rest else b ∷ rest

abbrev pub block_at : ℤ → List Block → Option Block
block_at height [] = none
block_at height (b ∷ bs) =
    let rest = block_at height bs in if pos b.height == height then some b else rest

-- The row of a block, which has no transactions.
abbrev pub stored : Block → Block
stored b = record b { transactions = [] }

module _ (l : Lru) (schemas : Map String ModelSchema) where
  pub record SmartDb : Type 0 where
    pub session : Session l schemas
    pub cached_blocks : BlockCache
    pub last_block_height : ℤ
    pub current_block : Option Block
    pub blocks : List Block
    pub histories : Map ℤ (List EntityChanges)
    pub check_modifier : Bool

  abbrev pub on_session {ℓ} : {A : Type ℓ} → SmartDb → A × Session l schemas → A × SmartDb
  on_session d (result, s) = (result, record d { session = s })

  -- `getSchema(model, true)`
  abbrev pub get_schema : String → Result ModelSchema
  get_schema model = or_throw (lookup model schemas) "unregistered model"

  abbrev with_schema {ℓ} :
      {A : Type ℓ} → String → SmartDb → (ModelSchema → Result A × SmartDb) → Result A × SmartDb
  with_schema model d next = elim (get_schema model) [
    | err message ↦ (err message, d)
    | ok schema ↦ next schema
  ]

  -- `lock(lockName)` and `tryLock(lockName)`
  abbrev pub lock : String → SmartDb → Result Bool × SmartDb
  lock name d = on_session d (lock_in_this_session l schemas name false d.session)

  abbrev pub try_lock : String → SmartDb → Result Bool × SmartDb
  try_lock name d = on_session d (lock_in_this_session l schemas name true d.session)

  -- `beginContract()`, `commitContract()` and `rollbackContract()`
  abbrev pub begin_contract : SmartDb → SmartDb
  begin_contract d = record d { session = begin_entity_transaction l schemas d.session }

  abbrev pub commit_contract : SmartDb → SmartDb
  commit_contract d = record d { session = commit_entity_transaction l schemas d.session }

  abbrev pub rollback_contract : SmartDb → Result (Unit {0}) × SmartDb
  rollback_contract d = on_session d (rollback_entity_transaction l schemas d.session)

  -- `create(model, entity)`
  abbrev pub create : String → Entity → SmartDb → Result (Unit {0}) × SmartDb
  create model e d =
      with_schema model d (λ schema. on_session d (create_entity l schemas schema e d.session))

  -- `load(model, key)`
  abbrev pub load : Database → String → Entity → SmartDb → Result (Option Entity) × SmartDb
  load db model key d =
      with_schema model d (λ schema. on_session d (load_row l schemas db schema key d.session))

  abbrev created_after : String → Entity → Result (Option Entity) × SmartDb → Result Bool × SmartDb
  created_after model e (err message, d) = (err message, d)
  created_after model e (ok (some row), d) = (ok false, d)
  created_after model e (ok none, d) =
      let (result, d') = create model e d in (result >>= λ _. ok true, d')

  -- `createOrLoad(model, entity)`, and whether it created
  abbrev pub create_or_load : Database → String → Entity → SmartDb → Result Bool × SmartDb
  create_or_load db model e d =
      with_schema model d
        (λ schema. created_after model e (load db model (get_normalized_primary_key schema e) d))

  -- `increase(model, increaseBy, key)`
  abbrev pub increase : Database → String → Entity → Entity → SmartDb → Result (Unit {0}) × SmartDb
  increase db model by key d =
      with_schema model d
        (λ schema. on_session d (increase_row l schemas db schema key by d.session))

  abbrev all_valid : ModelSchema → Entity → Bool
  all_valid schema [] = true
  all_valid schema ((name, v) ∷ e) = is_valid_property schema name && all_valid schema e

  -- `update(model, modifier, key)`
  abbrev pub update : Database → String → Entity → Entity → SmartDb → Result (Unit {0}) × SmartDb
  update db model modifier key d = with_schema model d (λ schema.
      and_then
        (
          throw_if (d.check_modifier && not (all_valid schema modifier))
              "property which is not defined in model",
          d,
        )
        (λ _ d'. on_session d' (update_row l schemas db schema key modifier d'.session)))

  -- `del(model, key)`
  abbrev pub del : Database → String → Entity → SmartDb → Result (Unit {0}) × SmartDb
  del db model key d =
      with_schema model d (λ schema. on_session d (delete_entity l schemas db schema key d.session))

  -- `beginBlock(block)`
  abbrev pub begin_block : Block → SmartDb → Result (Unit {0}) × SmartDb
  begin_block b d =
      if pos b.height == d.last_block_height +ℤ pos 1
      then (ok tt, record d { current_block = some b })
      else (err "invalid block height", d)

  -- `appendBlock(block, changes)`, which is no transaction: a block whose history is refused stays.
  abbrev pub append_block :
      Outside → Block → List EntityChanges → SmartDb → Result (Unit {0}) × SmartDb
  append_block o b changes d =
      and_then (o.insert_block b, d)
        (λ _ d1.
          and_then (o.insert_history (pos b.height), record d1 { blocks = d1.blocks ++ b ∷ [] })
            (λ _ d2. (ok tt, record d2 { histories = insert (pos b.height) changes d2.histories })))

  -- `deleteLastBlock(height)`
  abbrev pub delete_last_block : ℤ → SmartDb → SmartDb
  delete_last_block height d = record d {
    blocks = without_height height d.blocks;
    histories = erase height d.histories;
    last_block_height = d.last_block_height -ℤ pos 1;
  }

  -- The block becomes the last one, or its rows are deleted again.
  abbrev pub cached_or_deleted : Block → Result BlockCache → SmartDb → Result (Unit {0}) × SmartDb
  cached_or_deleted b (ok c) d = (ok tt, record d { cached_blocks = c; current_block = none })
  cached_or_deleted b (err message) d = (err message, delete_last_block (pos b.height) d)

  abbrev pub saved_or_deleted :
      Block → Result (Unit {0}) × Session l schemas → SmartDb → Result (Unit {0}) × SmartDb
  saved_or_deleted b (ok done, s) d =
      let d' = record d { session = s } in cached_or_deleted b (push b d'.cached_blocks) d'
  saved_or_deleted b (err message, s) d =
      (err message, delete_last_block (pos b.height) (record d { session = s }))

  -- `commitBlock()`
  unfoldable pub commit_block : Database → Outside → SmartDb → Result (Unit {0}) × SmartDb
  commit_block db o d = elim d.current_block [
    | none ↦ (err "Current block is null", d)
    | some b ↦
        and_then (o.pre_commit_block b, d)
          (λ _ d0.
            and_then (append_block o (stored b) d0.session.tracker.confirmed_changes d0) (λ _ d1.
              let d2 = record d1 { last_block_height = d1.last_block_height +ℤ pos 1 } in
              saved_or_deleted b (save_changes l schemas db (some (pos b.height)) d2.session) d2))
  ]

  -- `getBlockByHeight(height, true)`
  unfoldable pub get_block_by_height : Outside → ℤ → SmartDb → Result (Option Block)
  get_block_by_height o height d =
      if ltb_ℤ height (pos 0)
      then err "height must great or equal zero"
      else elim (get height d.cached_blocks) [
        | some b ↦ ok (some b)
        | none ↦ elim (block_at height d.blocks) [
          | none ↦ ok none
          | some b ↦ ok (some (record b { transactions = o.transactions_at b.height }))
        ]
      ]

  abbrev loaded : Result (Option Block) → SmartDb → Result (Unit {0}) × SmartDb
  loaded (err message) d = (err message, d)
  loaded (ok none) d = (err "Cannot read property 'height' of undefined", d)
  loaded (ok (some b)) d = elim (push b d.cached_blocks) [
    | err message ↦ (err message, d)
    | ok c ↦ (ok tt, record d { cached_blocks = c })
  ]

  -- `ensureLastBlockLoaded()`
  unfoldable pub ensure_last_block_loaded : Outside → SmartDb → Result (Unit {0}) × SmartDb
  ensure_last_block_loaded o d =
      if not (is_some (get d.last_block_height d.cached_blocks))
        && leb_ℤ (pos 0) d.last_block_height
      then loaded (get_block_by_height o d.last_block_height d) d
      else (ok tt, d)

  -- The loop of `rollbackBlock`, with the number of rounds that are left at most; it compares texts.
  unfoldable pub delete_above : ℕ → ℤ → SmartDb → SmartDb
  delete_above zero target d = d
  delete_above (suc n) target d =
      elim (comes_after (decimal d.last_block_height) (decimal target)) [
        | false ↦ d
        | true ↦
            let d' = delete_last_block d.last_block_height d in
            delete_above n target
              (record d' { cached_blocks = evit_until d'.last_block_height d'.cached_blocks })
      ]

  -- `rollbackBlock(height)`
  unfoldable pub rollback_block :
      Database → Outside → Option ℤ → SmartDb → Result (Unit {0}) × SmartDb
  rollback_block db o height d =
      let target = elim height as (λ _. ℤ) [ none ↦ d.last_block_height | some h ↦ h ] in
      let current = elim d.current_block as (λ _. ℤ) [
        | none ↦ d.last_block_height
        | some b ↦ pos b.height
      ] in
      and_then
        (throw_if (ltb_ℤ d.last_block_height target) "height must less or equal lastBlockHeight", d)
        (λ _ d0.
          and_then (o.pre_rollback_block current target, d0)
            (λ _ d1.
              and_then (on_session d1 (rollback_changes l schemas db target d1.session)) (λ _ d2.
                and_then
                  (ensure_last_block_loaded o
                    (delete_above (abs (d2.last_block_height -ℤ target)) target d2))
                  (λ _ d3. (ok tt, record d3 { current_block = none })))))
