-- ===== src/Core/Transactions.antt =====
-- packages/main/src/core/transactions.ts: a transaction is checked, charged and executed. `sdb`'s contract
-- transaction is the pair of the old tables and a result: after an error the caller keeps the tables that
-- were there when it began.
use gny.Prelude.{
  ℕ, zero, suc, ◌+◌, ◌-◌, String, ap, Bool, true, not, ◌&&◌, Option, none, some, List, arith, ltb,
  if◌then◌else◌, ◌==◌, nat_eq, string_eq, option_eq, is_some, set, contains,
}
use gny.Prelude.Int.{ℤ, pos, ◌+ℤ◌, ◌-ℤ◌, ltb_ℤ, eqb_ℤ, int_eq}
use gny.Prelude.Map.{has}
use gny.Prelude.{bool_eq}
pub mod Supply
pub mod Admission
pub mod Sender
pub mod Outcome
use gny.Utils.LimitCache.{LimitCache, set_entry, has_key}
use gny.Interfaces.{Account, Context, Transaction, Result, ok, err, ◌>>=◌, ◌>>◌, throw_if, or_throw}
use gny.Base.Platform.{Platform}
use gny.Base.Address.{is_address}
use gny.Base.TransactionBase.{get_id, verify_transaction}
use gny.Pool.{TransactionPool, add, has_id}
use gny.Core.State.{State, last_height}
use gny.Contract.Ledger.{Tables, find_first, has_address, update_account, create_account}
use gny.Contract.Basic.{
  Pattern, new_account, transfer, set_user_name, set_second_passphrase, lock, unlock,
  register_delegate,
}
use gny.Contract.Basic.Ballot.{vote, unvote}

abbrev pub Contract : Type 0
Contract = Context → List String → Tables → Result Tables

-- What stands around the contracts: the platform, the arguments behind their JSON text, the validators'
-- patterns, the contracts of the other modules by transaction type, and the clock.
pub record Runtime : Type 0 where
  pub platform : Platform
  pub json_args : Option String → List String
  pub is_name : Pattern
  pub is_public_key : Pattern
  pub others : ℕ → Option Contract
  pub now : ℕ

-- `contractTypeMapping`, for the contracts of `basic`.
abbrev pub basic_contract : Runtime → ℕ → Option Contract
basic_contract r kind =
    if kind == 0
    then some (transfer r.platform)
    else if kind == 1
    then some (set_user_name r.is_name)
    else if kind == 2
    then some (set_second_passphrase r.platform r.is_public_key)
    else if kind == 3
    then some lock
    else if kind == 4
    then some vote
    else if kind == 5
    then some unvote
    else if kind == 6
    then some unlock
    else if kind == 10
    then some register_delegate
    else none

abbrev pub contract_of : Runtime → ℕ → Option Contract
contract_of r kind = elim (basic_contract r kind) [
  | some contract ↦ some contract
  | none ↦ r.others kind
]

abbrev pub charged : Account → ℕ → Account
charged sender fee = record sender { gny = sender.gny -ℤ pos fee }

-- The fee, which no transaction of the genesis block pays.
unfoldable pub charge : Context → Tables → Result (Context × Tables)
charge c db =
    if eqb_ℤ c.block_height (pos 0)
    then ok (c, db)
    else (throw_if (ltb_ℤ c.sender.gny (pos c.trs.fee)) "Insufficient sender balance"
        >> (update_account c.sender.address (λ a. record a { gny = c.sender.gny -ℤ pos c.trs.fee })
              db
            >>= λ db'. ok (record c { sender = charged c.sender c.trs.fee }, db')))

-- `apply(context)`
unfoldable pub apply : Runtime → Context → Tables → Result Tables
apply r c db = or_throw (contract_of r c.trs.kind) "Unsupported transaction type" >>= λ contract.
    charge c db >>= λ (c', db'). contract c' (r.json_args c.trs.args) db'

-- The sender's row, which only the genesis block creates.
abbrev pub load_sender : ℤ → String → Tables → Result (Account × Tables)
load_sender height sender_id db = elim (find_first (has_address sender_id) db.accounts) [
  | some sender ↦ ok (sender, db)
  | none ↦
      if ltb_ℤ (pos 0) height
      then err "Sender account not found"
      else (create_account (new_account sender_id (pos 0)) db >>= λ db'.
          ok (new_account sender_id (pos 0), db'))
]

-- `TransactionBase.verify(context)`, which the genesis block's transactions skip.
abbrev pub check_context : Runtime → ℤ → Context → Result (Unit {0})
check_context r height c =
    if ltb_ℤ (pos 0) height
    then elim (verify_transaction r.platform r.now c) [ none ↦ ok tt | some message ↦ err message ]
    else ok tt

-- The first half of `applyUnconfirmedTransactionAsync`: the context, and the tables with the sender's row.
unfoldable pub prepare : Runtime → State → Transaction → Tables → Result (ℤ × Context × Tables)
prepare r s t db = last_height s.last_block >>= λ height.
    throw_if (t.sender_id == "") "Missing sender address"
    >> (throw_if (is_address r.platform t.sender_id && not (is_some t.sender_public_key))
          "Sender public key not provided"
        >> (load_sender height t.sender_id db >>= λ (sender, db').
            ok (height, record { trs = t; block_height = height +ℤ pos 1; sender = sender }, db')))

-- `applyUnconfirmedTransactionAsync(state, transaction)`, the tables if it returns.
unfoldable pub apply_unconfirmed_transaction :
    Runtime → State → Transaction → Tables → Result Tables
apply_unconfirmed_transaction r s t db =
    prepare r s t db >>= λ (height, c, db'). check_context r height c >> apply r c db'

-- The tables if it throws: `rollbackContract` undoes what stands behind `beginContract`, and so not the
-- sender's row, which is created before it.
unfoldable pub left_by_error : Runtime → State → Transaction → Tables → Tables
left_by_error r s t db = elim (prepare r s t db) [ ok (height, c, db') ↦ db' | err message ↦ db ]

-- `global.transactionPool`, `global.failedTrsCache` and `sdb`; the ids of the saved transactions.
pub record Pending : Type 0 where
  pub pool : TransactionPool
  pub failed : LimitCache String Bool
  pub tables : Tables
  pub confirmed : List String

abbrev pub with_id : Runtime → Transaction → Result Transaction
with_id r t =
    if t.id == ""
    then ok (record t { id = get_id r.platform t })
    else throw_if (not (t.id == get_id r.platform t)) "Invalid transaction id" >> ok t

-- The id that the handler knows when something is thrown.
abbrev pub known_id : Runtime → Transaction → String
known_id r t = if t.id == "" then get_id r.platform t else t.id

-- The checks inside the `try`.
unfoldable pub check_new : Runtime → State → Transaction → Pending → Result Transaction
check_new r s t p = with_id r t >>= λ trs.
    throw_if s.priv_is_collecting_votes "Block consensus in processing"
    >> (throw_if (has_key trs.id p.failed) "Transaction already processed"
        >> (throw_if (has_id trs.id p.pool) "Transaction already in the pool"
            >> (throw_if (contains p.confirmed trs.id) "Transaction already confirmed" >> ok trs)))

-- The checks and the execution inside the `try`.
unfoldable pub admit : Runtime → State → Transaction → Pending → Result (Transaction × Tables)
admit r s t p = check_new r s t p >>= λ trs.
    apply_unconfirmed_transaction r s trs p.tables >>= λ db. ok (trs, db)

-- The tables after an error in the `try`: only the execution writes.
abbrev pub tables_of_error : Runtime → State → Pending → Result Transaction → Tables
tables_of_error r s p (ok trs) = left_by_error r s trs p.tables
tables_of_error r s p (err message) = p.tables

-- After the `try`: the transaction goes to the pool, or its id to the failed ones.
abbrev pub settle :
    Runtime
    → State
    → Transaction
    → Pending
    → Result (Transaction × Tables)
    → Result Transaction × Pending
settle r s t p (ok (trs, db)) = (ok trs, record p { pool = add trs p.pool; tables = db })
settle r s t p (err message) = (
  err message,
  record p {
    failed = set_entry (known_id r t) true p.failed;
    tables = tables_of_error r s p (check_new r s t p);
  },
)

-- `processUnconfirmedTransactionAsync(state, transaction)`
unfoldable pub process_unconfirmed_transaction :
    Runtime → State → Transaction → Pending → Result Transaction × Pending
process_unconfirmed_transaction r s t p = settle r s t p (admit r s t p)
