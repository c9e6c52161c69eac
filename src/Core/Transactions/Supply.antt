-- ===== src/Core/Transactions/Supply.antt =====
-- What an executed transaction does to the number of coins.
use gny.Prelude.{
  ℕ, String, ◌≡◌, refl, sym, ap, ◌∙◌, ◌≢◌, inl, inr, Bool, true, false, Option, none, some, List,
  arith, if◌then◌else◌, ◌==◌, nat_eq, string_eq, option_eq, Option-cases, is_some,
}
use gny.Prelude.Int.{ℤ, pos, ◌+ℤ◌, ◌-ℤ◌, ltb_ℤ, eqb_ℤ, int_laws, int_eq}
use mathlib.Core.Path.{subst}
use gny.Interfaces.{
  ok_inj, Account, Context, Result, ok, ◌>>=◌, ◌>>◌, throw_if, bind_ok, guard_ok, or_throw_ok,
}
use gny.Contract.Ledger.{Tables, find_first, has_address, update_account}
use gny.Contract.Ledger.Totals.{holdings, total_gny, sum_of-update_first}
use gny.Contract.Basic.{
  transfer, lock, unlock, set_user_name, set_second_passphrase, register_delegate,
}
use gny.Contract.Basic.Ballot.{vote, unvote}
use gny.Contract.Basic.Supply.{transfer-total_gny, lock-total_gny}
use gny.Contract.Basic.Unlock.{find_first-update_first}
use gny.Contract.Basic.Holdings.{
  Keeps, set_user_name-Keeps, set_second_passphrase-Keeps, register_delegate-Keeps, vote-Keeps,
  unvote-Keeps,
}
use gny.Core.Transactions.{Runtime, Contract, basic_contract, contract_of, charged, charge, apply}

-- The context's sender is the stored row of its address.
abbrev pub Stored : Context → Tables → Type 0
Stored c db = find_first (has_address c.sender.address) db.accounts ≡ some c.sender

-- A contract that keeps the coins, where the sender is the stored row.
abbrev KeepsAll : Contract → Type 0
KeepsAll contract =
    (c : Context) (args : List String) (db db' : Tables)
    → Stored c db
    → contract c args db ≡ ok db'
    → Keeps db db'

some_inj : {A : Type 0} {a b : A} → some a ≡ some b → a ≡ b
some_inj e = cc

no_contract : (contract : Contract) → none ≡ some contract → KeepsAll contract
no_contract contract e = cc

choose :
    (test : Bool) (x contract : Contract) (rest : Option Contract)
    → (test ≡ true → KeepsAll x)
    → (rest ≡ some contract → KeepsAll contract)
    → (if test then some x else rest) ≡ some contract
    → KeepsAll contract
choose true x contract rest this others e = subst KeepsAll (some_inj e) (this refl)
choose false x contract rest this others e = others e

basic_contract-KeepsAll :
    (r : Runtime) (kind : ℕ) (contract : Contract)
    → kind ≢ 6
    → basic_contract r kind ≡ some contract
    → KeepsAll contract
basic_contract-KeepsAll r kind contract other =
    choose (kind == 0) (transfer r.platform) contract _
      (λ _ c args db db' _ h. transfer-total_gny r.platform c args db db' h)
      (choose (kind == 1) (set_user_name r.is_name) contract _
        (λ _ c args db db' _ h. set_user_name-Keeps r.is_name c args db db' h)
        (choose (kind == 2) (set_second_passphrase r.platform r.is_public_key) contract _
          (λ _ c args db db' _ h.
            set_second_passphrase-Keeps r.platform r.is_public_key c args db db' h)
          (choose (kind == 3) lock contract _ (λ _. lock-total_gny)
            (choose (kind == 4) vote contract _ (λ _ c args db db' _ h. vote-Keeps c args db db' h)
              (choose (kind == 5) unvote contract _
                (λ _ c args db db' _ h. unvote-Keeps c args db db' h)
                (choose (kind == 6) unlock contract _ (λ e. elim (other (ground (arith, e))) [ ])
                  (choose (kind == 10) register_delegate contract _
                    (λ _ c args db db' _ h. register_delegate-Keeps c args db db' h)
                    (no_contract contract))))))))

abbrev take_fee : Context → Tables → Result (Context × Tables)
take_fee c db =
    update_account c.sender.address (λ a. record a { gny = c.sender.gny -ℤ pos c.trs.fee }) db
    >>= λ db'. ok (record c { sender = charged c.sender c.trs.fee }, db')

holdings-charged :
    (s : Account) (fee : ℕ) → holdings (charged s fee) ≡ holdings s +ℤ (pos 0 -ℤ pos fee)
holdings-charged s fee = omega int_laws

less_fee : (a n : ℤ) → a +ℤ (pos 0 -ℤ n) ≡ a -ℤ n
less_fee a n = omega int_laws

-- What the charge leaves: the coins without the fee, and the sender's new row in the context.
Charged : Context → Tables → Context × Tables → Type 0
Charged c db (c', db') = (total_gny db' ≡ total_gny db -ℤ pos c.trs.fee) × Stored c' db'

take_fee_lem :
    (c : Context) (db : Tables) (r : Context × Tables)
    → Stored c db
    → take_fee c db ≡ ok r
    → Charged c db r
unfolding Charged update_account
take_fee_lem c db r stored h =
    let address = c.sender.address in
    let f : Account → Account = λ a. record a { gny = c.sender.gny -ℤ pos c.trs.fee } in
    let (db', paid, e) = bind_ok (update_account address f db) _ r h in
    let (a, found, e') =
      or_throw_ok (find_first (has_address address) db.accounts) "Entity not found" _ db' paid in
    let total =
      sum_of-update_first address f (pos 0 -ℤ pos c.trs.fee) c.sender db.accounts
        (holdings-charged c.sender c.trs.fee) stored in
    let row = find_first-update_first address f c.sender db.accounts refl stored in
    subst (Charged c db) (ok_inj e) (
      subst (λ d. Charged c db (record c { sender = charged c.sender c.trs.fee }, d)) (ok_inj e')
        (total ∙ less_fee (total_gny db) (pos c.trs.fee), row))

charge_lem :
    (c : Context) (db : Tables) (r : Context × Tables)
    → eqb_ℤ c.block_height (pos 0) ≡ false
    → Stored c db
    → charge c db ≡ ok r
    → Charged c db r
unfolding charge
charge_lem c db r later stored h =
    let h1 =
      sym (
        ap
          (λ b.
            if b
            then ok (c, db)
            else (throw_if (ltb_ℤ c.sender.gny (pos c.trs.fee)) "Insufficient sender balance"
                >> take_fee c db))
          later)
      ∙ h in
    let (funded, h2) =
      guard_ok (ltb_ℤ c.sender.gny (pos c.trs.fee)) "Insufficient sender balance" _ r h1 in
    take_fee_lem c db r stored h2

basic_first :
    (r : Runtime) (kind : ℕ) (x contract : Contract)
    → basic_contract r kind ≡ some x
    → contract_of r kind ≡ some contract
    → basic_contract r kind ≡ some contract
basic_first r kind x contract e h =
    let h1 : some x ≡ some contract =
      sym (ap (λ o. elim o [ some y ↦ some y | none ↦ r.others kind ]) e) ∙ h in
    e ∙ h1

-- A transaction of a contract of `basic` other than `unlock` that is executed after the genesis block, by
-- a sender whose stored row is the context's, takes its fee out of the accounts' coins and nothing else:
-- their total is less by just the fee.
pub apply-total_gny :
    (r : Runtime) (c : Context) (db db' : Tables)
    → eqb_ℤ c.block_height (pos 0) ≡ false
    → is_some (basic_contract r c.trs.kind) ≡ true
    → c.trs.kind ≢ 6
    → Stored c db
    → apply r c db ≡ ok db'
    → total_gny db' ≡ total_gny db -ℤ pos c.trs.fee
unfolding apply Charged
apply-total_gny r c db db' later basic other stored h =
    let (contract, named, h1) =
      or_throw_ok (contract_of r c.trs.kind) "Unsupported transaction type" _ db' h in
    let (paid, charged_ok, h2) = bind_ok (charge c db) _ db' h1 in
    elim (Option-cases (basic_contract r c.trs.kind)) [
      | inl absent ↦ ground (arith, absent)
      | inr (x, present) ↦
          let keeps =
            basic_contract-KeepsAll r c.trs.kind contract other
              (basic_first r c.trs.kind x contract present named) in
          let (total, row) = charge_lem c db paid later stored charged_ok in
          keeps paid.0 (r.json_args c.trs.args) paid.1 db' row h2 ∙ total
    ]
