-- ===== src/Contract/Basic/Supply.antt =====
-- What the contracts of basic.ts do to the number of coins.
use gny.Prelude.{
  ℕ, String, ◌≡◌, sym, ap, ◌∙◌, inl, inr, some, List, [], ◌∷◌, arith, ◌==◌, nat_eq, string_eq,
  option_eq, Bool-cases, Option-cases, option_beq, contains,
}
use gny.Prelude.Int.{ℤ, pos, ◌+ℤ◌, ◌-ℤ◌, int_laws, int_eq}
use mathlib.Core.Path.{subst}
use gny.Prelude.Double.{to_double}
use gny.Interfaces.{ok_inj, Account, Context, ok, ◌>>=◌, or_throw, bind_ok, guard_ok, or_throw_ok}
use gny.Base.Platform.{Platform}
use gny.Base.Address.{is_address}
use gny.Contract.Ledger.{
  Tables, find_first, has_address, increase_gny, create_account, update_account, lock_name,
  increase_votes, votes_of, has_name,
}
use gny.Contract.Ledger.Totals.{
  holdings, sum_of, total_gny, increase_gny-total, create_account-total, create_transfer-total,
  update_account-total,
}
use gny.Contract.Basic.{
  amount_of, new_account, credit, pay, transfer, underfunded, to_self, account_lock,
  increase_all_votes, locked_sender, lock, lock_allowed,
}

pay_back : (a n : ℤ) → a +ℤ n +ℤ (pos 0 -ℤ n) ≡ a
pay_back a n = omega int_laws

holdings-new_account : (address : String) (n : ℤ) → holdings (new_account address n) ≡ n
holdings-new_account address n = omega int_laws

paid_row-total :
    (a : Account) (amount : ℤ) (db : Tables) (r : Account × Tables)
    → (increase_gny a.address amount db >>= λ db'. ok (a, db')) ≡ ok r
    → total_gny r.1 ≡ total_gny db +ℤ amount
paid_row-total a amount db r h =
    let (db', paid, e) = bind_ok (increase_gny a.address amount db) _ r h in
    subst (λ x. total_gny x ≡ total_gny db +ℤ amount) (ap (λ x. x.1) (ok_inj e))
      (increase_gny-total a.address amount db db' paid)

credit-total :
    (p : Platform) (recipient : String) (amount : ℤ) (db : Tables) (r : Account × Tables)
    → credit p recipient amount db ≡ ok r
    → total_gny r.1 ≡ total_gny db +ℤ amount
unfolding credit
credit-total p recipient amount db r h = elim (Bool-cases (is_address p recipient)) [
  | inr name ↦
      let h' : (or_throw (find_first (λ a. option_beq a.username (some recipient)) db.accounts)
              "Recipient name not exist"
            >>= λ account. increase_gny account.address amount db >>= λ db'. ok (account, db'))
          ≡ ok r =
        ground (arith, name, h) in
      let (a, found, paid) =
        or_throw_ok (find_first (λ a. option_beq a.username (some recipient)) db.accounts)
          "Recipient name not exist" _ r h' in
      paid_row-total a amount db r paid
  | inl address ↦ elim (Option-cases (find_first (has_address recipient) db.accounts)) [
    | inr (a, found) ↦ paid_row-total a amount db r (ground (arith, address, found, h))
    | inl missing ↦
        let fresh = new_account recipient amount in
        let h' : (create_account fresh db >>= λ db'. ok (fresh, db')) ≡ ok r =
          ground (arith, address, missing, h) in
        let (db', created, e) = bind_ok (create_account fresh db) _ r h' in
        subst (λ x. total_gny x ≡ total_gny db +ℤ amount) (ap (λ x. x.1) (ok_inj e))
          (create_account-total fresh db db' created
            ∙ ap (λ n. total_gny db +ℤ n) (holdings-new_account recipient amount))
  ]
]

pay-total :
    (p : Platform) (c : Context) (amount : ℕ) (recipient : String) (db db' : Tables)
    → pay p c amount recipient db ≡ ok db'
    → total_gny db' ≡ total_gny db
pay-total p c amount recipient db db' h =
    let (r, credited, rest) = bind_ok (credit p recipient (pos amount) db) _ db' h in
    let (paid, taken, created) =
      bind_ok (increase_gny c.sender.address (pos 0 -ℤ pos amount) r.1) _ db' rest in
    create_transfer-total _ paid db' created
    ∙ increase_gny-total c.sender.address (pos 0 -ℤ pos amount) r.1 paid taken
    ∙ ap (λ n. n +ℤ (pos 0 -ℤ pos amount)) (credit-total p recipient (pos amount) db r credited)
    ∙ pay_back (total_gny db) (pos amount)

-- A `transfer` that returns no message leaves the number of coins as it was, whoever is paid.
pub transfer-total_gny :
    (p : Platform) (c : Context) (args : List String) (db db' : Tables)
    → transfer p c args db ≡ ok db'
    → total_gny db' ≡ total_gny db
unfolding transfer
transfer-total_gny p c [] db db' h = cc
transfer-total_gny p c (text ∷ []) db db' h = cc
transfer-total_gny p c (text ∷ recipient ∷ x ∷ args) db db' h = cc
transfer-total_gny p c (text ∷ recipient ∷ []) db db' h =
    let (named, h1) = guard_ok (recipient == "") _ _ db' h in
    let (n, parsed, h2) = bind_ok (amount_of text) _ db' h1 in
    let (funded, h3) = guard_ok (underfunded c (to_double n)) "Insufficient balance" _ db' h2 in
    let (other, h4) = guard_ok (to_self c recipient) "Invalid recipient" _ db' h3 in
    pay-total p c (to_double n) recipient db db' h4

-- The steps that leave the accounts alone.
pub lock_name-accounts :
    (name : String) (db db' : Tables) → lock_name name db ≡ ok db' → db'.accounts ≡ db.accounts
unfolding lock_name
lock_name-accounts name db db' h =
    let (free, e) = guard_ok (contains db.locks name) "Lock name exists already" _ db' h in
    ap (λ d. d.accounts) (sym (ok_inj e))

pub increase_votes-accounts :
    (name : String) (delta : ℤ) (db db' : Tables)
    → increase_votes name delta db ≡ ok db'
    → db'.accounts ≡ db.accounts
unfolding increase_votes
increase_votes-accounts name delta db db' h =
    let (d, found, e) =
      or_throw_ok (find_first (has_name name) db.delegates) "Entity not found" _ db' h in
    ap (λ d. d.accounts) (sym (ok_inj e))

increase_all_votes-accounts :
    (names : List String) (delta : ℤ) (db db' : Tables)
    → increase_all_votes names delta db ≡ ok db'
    → db'.accounts ≡ db.accounts
unfolding increase_all_votes
increase_all_votes-accounts [] delta db db' h = ap (λ d. d.accounts) (sym (ok_inj h))
increase_all_votes-accounts (name ∷ names) delta db db' h =
    let (mid, first, rest) = bind_ok (increase_votes name delta db) _ db' h in
    increase_all_votes-accounts names delta mid db' rest
    ∙ increase_votes-accounts name delta db mid first

stored_row :
    (address : String) (s a : Account) (before after : Tables)
    → after.accounts ≡ before.accounts
    → find_first (has_address address) before.accounts ≡ some s
    → find_first (has_address address) after.accounts ≡ some a
    → holdings s ≡ holdings a
stored_row address s a before after rows stored found =
    let e : some s ≡ some a =
      sym stored ∙ ap (find_first (has_address address)) (sym rows) ∙ found in
    ap holdings {x = s} {y = a} (ground (arith, e))

holdings-locked_sender :
    (s : Account) (height amount : ℕ) → holdings (locked_sender s height amount) ≡ holdings s
holdings-locked_sender s height amount = omega int_laws

-- A `lock` that returns no message moves coins of the sender from one field to the other, where the
-- context's sender is the stored row: the number of coins stays.
pub lock-total_gny :
    (c : Context) (args : List String) (db db' : Tables)
    → find_first (has_address c.sender.address) db.accounts ≡ some c.sender
    → lock c args db ≡ ok db'
    → total_gny db' ≡ total_gny db
unfolding lock
lock-total_gny c [] db db' stored h = cc
lock-total_gny c (a ∷ []) db db' stored h = cc
lock-total_gny c (a ∷ b ∷ x ∷ args) db db' stored h = cc
lock-total_gny c (height_text ∷ amount_text ∷ []) db db' stored h =
    let (height, parsed, h1) = bind_ok (amount_of height_text) _ db' h in
    let (amount, parsed', h2) = bind_ok (amount_of amount_text) _ db' h1 in
    let (locked, free, h3) = bind_ok (lock_name (account_lock c) db) _ db' h2 in
    let (unit, allowed, h4) = bind_ok (lock_allowed c height amount) _ db' h3 in
    let (mid, written, h5) =
      bind_ok (update_account c.sender.address (λ a. locked_sender c.sender height amount) locked) _
        db' h4 in
    let rows = lock_name-accounts (account_lock c) db locked free in
    ap (sum_of holdings)
      (increase_all_votes-accounts (votes_of c.sender.address mid) (pos amount) mid db' h5)
    ∙ update_account-total c.sender.address (λ a. locked_sender c.sender height amount) locked mid
        (λ a found.
          holdings-locked_sender c.sender height amount
          ∙ stored_row c.sender.address c.sender a db locked rows stored found)
        written
    ∙ ap (sum_of holdings) rows
