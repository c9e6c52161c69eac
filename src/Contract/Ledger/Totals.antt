-- ===== src/Contract/Ledger/Totals.antt =====
-- Sums over the accounts of the ledger.
use gny.Prelude.{
  String, ◌≡◌, refl, sym, ap, ◌∙◌, inl, inr, true, false, Option, some, List, [], ◌∷◌, arith,
  if◌then◌else◌, ◌==◌, nat_eq, string_eq, option_eq, Bool-cases, is_some,
}
use gny.Prelude.Int.{ℤ, pos, ◌+ℤ◌, int_laws, int_eq}
use mathlib.Core.Path.{subst}
use gny.Interfaces.{ok_inj, Account, ok, guard_ok, or_throw_ok}
use gny.Contract.Ledger.{
  Tables, Transfer, find_first, update_first, has_address, increase_gny, create_account,
  create_transfer, update_account,
}

abbrev pub sum_of : (Account → ℤ) → List Account → ℤ
sum_of f [] = pos 0
sum_of f (a ∷ accounts) = f a +ℤ sum_of f accounts

-- All the coins that an account holds, those locked included.
abbrev pub holdings : Account → ℤ
holdings a = a.gny +ℤ pos a.lock_amount

abbrev pub total_gny : Tables → ℤ
total_gny db = sum_of holdings db.accounts

move_right : (a b c : ℤ) → a +ℤ b +ℤ c ≡ a +ℤ c +ℤ b
move_right a b c = omega int_laws

+ℤ_assoc : (a b c : ℤ) → a +ℤ (b +ℤ c) ≡ a +ℤ b +ℤ c
+ℤ_assoc a b c = omega int_laws

head_shift :
    (a x : Account) (accounts : List Account) (f : Account → Account) (delta : ℤ)
    (rest : List Account) (address : String)
    → holdings (f a) ≡ holdings a +ℤ delta
    → (x.address == address) ≡ true
    → find_first (has_address address) (x ∷ accounts) ≡ some a
    → sum_of holdings (if x.address == address then f x ∷ accounts else x ∷ rest)
      ≡ holdings x +ℤ sum_of holdings accounts +ℤ delta
head_shift a x accounts f delta rest address shift here found =
    let same : x ≡ a = ground (arith, here, found) in
    let shift' : holdings (f x) ≡ holdings x +ℤ delta =
      subst (λ y. holdings (f y) ≡ holdings y +ℤ delta) (sym same) shift in
    ap (λ b. sum_of holdings (if b then f x ∷ accounts else x ∷ rest)) here
    ∙ ap (λ n. n +ℤ sum_of holdings accounts) shift'
    ∙ move_right (holdings x) delta (sum_of holdings accounts)

tail_shift :
    (x : Account) (o : Option Account) (a : Account) (accounts : List Account)
    (f : Account → Account) (delta : ℤ) (address : String)
    → (x.address == address) ≡ false
    → (if x.address == address then some x else o) ≡ some a
    → (o ≡ some a
        → sum_of holdings (update_first (has_address address) f accounts)
          ≡ sum_of holdings accounts +ℤ delta)
    → sum_of holdings (
        if x.address == address
        then f x ∷ accounts
        else x ∷ update_first (has_address address) f accounts)
      ≡ holdings x +ℤ sum_of holdings accounts +ℤ delta
tail_shift x o a accounts f delta address there found ih =
    let h = ih (ground (arith, there, found)) in
    ap
      (λ b.
        sum_of holdings
          (if b then f x ∷ accounts else x ∷ update_first (has_address address) f accounts))
      there
    ∙ ap (λ n. holdings x +ℤ n) h
    ∙ +ℤ_assoc (holdings x) (sum_of holdings accounts) delta

raise : ℤ → Account → Account
raise delta a = record a { gny = a.gny +ℤ delta }

pub sum_of-update_first :
    (address : String) (f : Account → Account) (delta : ℤ) (a : Account) (accounts : List Account)
    → holdings (f a) ≡ holdings a +ℤ delta
    → find_first (has_address address) accounts ≡ some a
    → sum_of holdings (update_first (has_address address) f accounts)
      ≡ sum_of holdings accounts +ℤ delta
sum_of-update_first address f delta a [] shift found = cc
sum_of-update_first address f delta a (x ∷ accounts) shift found =
    elim (Bool-cases (x.address == address)) [
      | inl here ↦
          head_shift a x accounts f delta (update_first (has_address address) f accounts) address
            shift here found
      | inr there ↦
          tail_shift x (find_first (has_address address) accounts) a accounts f delta address there
            found (sum_of-update_first address f delta a accounts shift)
    ]

pub increase_gny-total :
    (address : String) (delta : ℤ) (db db' : Tables)
    → increase_gny address delta db ≡ ok db'
    → total_gny db' ≡ total_gny db +ℤ delta
unfolding increase_gny raise
increase_gny-total address delta db db' h =
    let (a, found, e) =
      or_throw_ok (find_first (has_address address) db.accounts) "Entity not found"
        (λ _.
          ok
            (record db { accounts = update_first (has_address address) (raise delta) db.accounts }))
        db' h in
    subst (λ d. total_gny d ≡ total_gny db +ℤ delta) (ok_inj e)
      (sum_of-update_first address (raise delta) delta a db.accounts (omega int_laws) found)

pub create_account-total :
    (a : Account) (db db' : Tables)
    → create_account a db ≡ ok db'
    → total_gny db' ≡ total_gny db +ℤ holdings a
unfolding create_account
create_account-total a db db' h =
    let (fresh, e) =
      guard_ok (is_some (find_first (has_address a.address) db.accounts)) "entity exists already"
        (ok (record db { accounts = a ∷ db.accounts })) db' h in
    subst (λ d. total_gny d ≡ total_gny db +ℤ holdings a) (ok_inj e) (omega int_laws)

pub create_transfer-total :
    (t : Transfer) (db db' : Tables) → create_transfer t db ≡ ok db' → total_gny db' ≡ total_gny db
unfolding create_transfer
create_transfer-total t db db' h =
    let (fresh, e) =
      guard_ok (is_some (find_first (λ u. u.tid == t.tid) db.transfers)) "entity exists already"
        (ok (record db { transfers = t ∷ db.transfers })) db' h in
    subst (λ d. total_gny d ≡ total_gny db) (ok_inj e) refl

-- A row written over one with the same holdings.
pub update_account-total :
    (address : String) (f : Account → Account) (db db' : Tables)
    → ((a : Account)
        → find_first (has_address address) db.accounts ≡ some a
        → holdings (f a) ≡ holdings a)
    → update_account address f db ≡ ok db'
    → total_gny db' ≡ total_gny db
unfolding update_account
update_account-total address f db db' kept h =
    let (a, found, e) =
      or_throw_ok (find_first (has_address address) db.accounts) "Entity not found"
        (λ _. ok (record db { accounts = update_first (has_address address) f db.accounts })) db'
        h in
    let same : holdings (f a) ≡ holdings a +ℤ pos 0 = kept a found ∙ omega int_laws in
    subst (λ d. total_gny d ≡ total_gny db) (ok_inj e)
      (sum_of-update_first address f (pos 0) a db.accounts same found ∙ omega int_laws)
