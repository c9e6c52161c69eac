-- ===== src/Core/Transactions/Outcome.antt =====
-- What one call of `processUnconfirmedTransactionAsync` leaves behind.
use gny.Prelude.{
  ◌≡◌, refl, sym, ap, ◌∙◌, ◌≢◌, inl, inr, true, false, not, arith, eq_iff, if◌then◌else◌, ◌==◌,
  nat_eq, string_eq, option_eq, Bool-cases, is_some, contains,
}
use gny.Prelude.Int.{pos, ◌-ℤ◌, eqb_ℤ, int_eq}
use mathlib.Core.Path.{subst}
use gny.Utils.LimitCache.{has_key}
use gny.Utils.LimitCache.Keys.{has_key-set_entry}
use gny.Interfaces.{ok_inj, Transaction, Result, ok, err, bind_ok, guard_ok}
use gny.Prelude.{bool_eq}
use gny.Interfaces.{◌>>◌, throw_if}
use gny.Base.TransactionBase.{get_id}
use gny.Pool.{add, has_id}
use gny.Core.State.{State, LastBlock}
use gny.Contract.Ledger.{Tables}
use gny.Contract.Ledger.Totals.{total_gny}
use gny.Core.Transactions.{
  Runtime, Pending, prepare, check_context, basic_contract, with_id, known_id, check_new, admit,
  settle, apply_unconfirmed_transaction, left_by_error, tables_of_error,
  process_unconfirmed_transaction,
}
use gny.Core.Transactions.Supply.{apply-total_gny}
use gny.Core.Transactions.Admission.{check_new-New, admit-Admitted}
use gny.Core.Transactions.Sender.{
  Entered, Entered-total, prepare-Prepared, left_by_error-Entered, not_genesis,
}

applied-total :
    (r : Runtime) (s : State) (t : Transaction) (db db' : Tables)
    → s.last_block ≢ LastBlock.pre_genesis
    → is_some (basic_contract r t.kind) ≡ true
    → t.kind ≢ 6
    → apply_unconfirmed_transaction r s t db ≡ ok db'
    → total_gny db' ≡ total_gny db -ℤ pos t.fee
unfolding apply_unconfirmed_transaction
applied-total r s t db db' later basic other h =
    let ((height, c, mid), prepared, h1) = bind_ok (prepare r s t db) _ db' h in
    let (e, same, next, stored, entered) = prepare-Prepared r s t db (height, c, mid) prepared in
    let (u, checked, applied) = bind_ok (check_context r height c) _ db' h1 in
    let fine : eqb_ℤ c.block_height (pos 0) ≡ false =
      ap (λ h. eqb_ℤ h (pos 0)) next ∙ not_genesis s.last_block height e later in
    apply-total_gny r c mid db' fine
      (ap (λ (x : Transaction). is_some (basic_contract r x.kind)) same ∙ basic)
      (λ six. other (sym (ap (λ (x : Transaction). x.kind) same) ∙ six)) stored applied
    ∙ ap (λ (x : Transaction). total_gny mid -ℤ pos x.fee) same
    ∙ ap (λ n. n -ℤ pos t.fee) (Entered-total s.last_block t.sender_id db mid entered)

with_id_named :
    (r : Runtime) (t trs : Transaction)
    → with_id r t ≡ ok trs
    → trs ≡ record t { id = get_id r.platform t }
with_id_named r t trs h = elim (Bool-cases (t.id == "")) [
  | inl nameless ↦ sym (
      ok_inj (
        sym (
          ap
            (λ b.
              if b
              then ok (record t { id = get_id r.platform t })
              else throw_if (not (t.id == get_id r.platform t)) "Invalid transaction id" >> ok t)
            nameless)
        ∙ h))
  | inr named ↦
      let h1 =
        sym (
          ap
            (λ b.
              if b
              then ok (record t { id = get_id r.platform t })
              else throw_if (not (t.id == get_id r.platform t)) "Invalid transaction id" >> ok t)
            named)
        ∙ h in
      let (right, e) =
        guard_ok (not (t.id == get_id r.platform t)) "Invalid transaction id" _ trs h1 in
      let same : t.id ≡ get_id r.platform t =
        ground (arith, right, eq_iff t.id (get_id r.platform t)) in
      sym (ok_inj e) ∙ ap (λ i. record t { id = i }) same
]

-- What a call leaves, where the transaction is admitted and where it is not.
abbrev pub Processed :
    Runtime → State → Transaction → Pending → Result Transaction × Pending → Type 0
Processed r s t p (ok trs, q) =
    (trs ≡ record t { id = get_id r.platform t })
    × (s.priv_is_collecting_votes ≡ false)
    × (has_key trs.id p.failed ≡ false)
    × (has_id trs.id p.pool ≡ false)
    × (contains p.confirmed trs.id ≡ false)
    × (q.pool ≡ add trs p.pool)
    × (q.failed ≡ p.failed)
    × (apply_unconfirmed_transaction r s trs p.tables ≡ ok q.tables)
    × (total_gny q.tables ≡ total_gny p.tables -ℤ pos t.fee)
Processed r s t p (err message, q) =
    Entered s.last_block t.sender_id p.tables q.tables
    × (total_gny q.tables ≡ total_gny p.tables)
    × (q.pool ≡ p.pool)
    × (has_key (known_id r t) q.failed ≡ true)

error-Entered :
    (r : Runtime) (s : State) (t : Transaction) (p : Pending) (result : Result Transaction)
    → check_new r s t p ≡ result
    → Entered s.last_block t.sender_id p.tables (tables_of_error r s p result)
error-Entered r s t p (err message) e = inl refl
error-Entered r s t p (ok trs) e =
    subst (λ id. Entered s.last_block id p.tables (left_by_error r s trs p.tables))
      (ap (λ (x : Transaction). x.sender_id)
        (with_id_named r t trs (check_new-New r s t p trs e).0))
      (left_by_error-Entered r s trs p.tables)

settle-Processed :
    (r : Runtime) (s : State) (t : Transaction) (p : Pending)
    (result : Result (Transaction × Tables))
    → s.last_block ≢ LastBlock.pre_genesis
    → is_some (basic_contract r t.kind) ≡ true
    → t.kind ≢ 6
    → admit r s t p ≡ result
    → Processed r s t p (settle r s t p result)
settle-Processed r s t p (err message) later basic other e =
    let entered = error-Entered r s t p (check_new r s t p) refl in
    (entered, Entered-total _ _ _ _ entered, refl, has_key-set_entry (known_id r t) true p.failed)
settle-Processed r s t p (ok (trs, db)) later basic other e =
    let (named, idle, new, absent, open_, applied) = admit-Admitted r s t p trs db e in
    let same = with_id_named r t trs named in
    let kind = ap (λ (x : Transaction). x.kind) same in
    (
      same,
      idle,
      new,
      absent,
      open_,
      refl,
      refl,
      applied,
      applied-total r s trs p.tables db later (ap (λ k. is_some (basic_contract r k)) kind ∙ basic)
            (λ six. other (sym kind ∙ six)) applied
          ∙ ap (λ (x : Transaction). total_gny p.tables -ℤ pos x.fee) same,
    )

-- One call of `processUnconfirmedTransactionAsync`, where the last block is not the one before the genesis block,
-- for a contract of `basic` other than `unlock`. Either the transaction is admitted: its id is the one
-- computed from it, no votes are being collected, it was new to the failed, the pooled and the confirmed
-- ones, it is added to the pool, its execution leaves the new tables, and the accounts hold less coins by
-- just its fee. Or the call throws: the pool stays, the id is remembered as failed, and the tables are as
-- they were, but for a row of the sender without coins, which is new only where the genesis block is the last
-- one and the sender had none; so the accounts hold as many coins.
pub process_unconfirmed_transaction-Processed :
    (r : Runtime) (s : State) (t : Transaction) (p : Pending)
    → s.last_block ≢ LastBlock.pre_genesis
    → is_some (basic_contract r t.kind) ≡ true
    → t.kind ≢ 6
    → Processed r s t p (process_unconfirmed_transaction r s t p)
unfolding process_unconfirmed_transaction
process_unconfirmed_transaction-Processed r s t p later basic other =
    settle-Processed r s t p (admit r s t p) later basic other refl
