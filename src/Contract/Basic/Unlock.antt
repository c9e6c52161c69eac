-- ===== src/Contract/Basic/Unlock.antt =====
-- What `unlock` leaves behind.
use gny.Prelude.{
  ℕ, zero, suc, ◌+◌, ◌*◌, ◌/◌, ◌^◌, ◌≤◌, ◌<◌, ltb, ◌⊎◌, String, ◌≡◌, refl, sym, ap, ◌∙◌, inl, inr,
  false, not, some, List, [], ◌∷◌, arith, eq_iff, if◌then◌else◌, ◌==◌, nat_eq, string_eq, option_eq,
  Bool-cases, contains,
}
use gny.Prelude.Int.{pos, leb_ℤ, int_eq}
use mathlib.Core.Path.{subst}
use gny.Prelude.Text.{digits_upto, decimal_digits}
use gny.Interfaces.{ok_inj, Account, Context, ok, bind_ok, guard_ok, or_throw_ok}
use gny.Contract.Ledger.{Tables, find_first, update_first, has_address, update_account, lock_name}
use gny.Contract.Basic.{account_lock, unlock, unlocked_sender, text_append, delete_created_votes}

-- The first row with an address is the one that is written over.
pub find_first-update_first :
    (address : String) (f : Account → Account) (a : Account) (accounts : List Account)
    → (f a).address ≡ address
    → find_first (has_address address) accounts ≡ some a
    → find_first (has_address address) (update_first (has_address address) f accounts) ≡ some (f a)
find_first-update_first address f a [] same found = cc
find_first-update_first address f a (x ∷ accounts) same found =
    elim (Bool-cases (x.address == address)) [
      | inl here ↦
          let e : x ≡ a = ground (arith, here, found) in
          let written : find_first (has_address address) (f a ∷ accounts) ≡ some (f a) =
            ground (arith, eq_iff (f a).address address, same) in
          ap
            (λ b.
              find_first (has_address address)
                (if b then f x ∷ accounts else x ∷ update_first (has_address address) f accounts))
            here
          ∙ ap (λ y. find_first (has_address address) (f y ∷ accounts)) e
          ∙ written
      | inr there ↦
          let found' : find_first (has_address address) accounts ≡ some a =
            ground (arith, there, found) in
          ap
            (λ b.
              find_first (has_address address)
                (if b then f x ∷ accounts else x ∷ update_first (has_address address) f accounts))
            there
          ∙ ap
              (λ b.
                if b
                then some x
                else find_first (has_address address)
                    (update_first (has_address address) f accounts))
              there
          ∙ find_first-update_first address f a accounts same found'
    ]

-- A row that is found by an address has it.
pub found-address :
    (id : String) (a : Account) (accounts : List Account)
    → find_first (has_address id) accounts ≡ some a
    → a.address ≡ id
found-address id a [] h = cc
found-address id a (x ∷ accounts) h = elim (Bool-cases (x.address == id)) [
  | inl here ↦ ground (arith, here, h, eq_iff x.address id)
  | inr there ↦ found-address id a accounts (ground (arith, there, h))
]

-- Rows of other tables are not touched by these.
lock_name_rest :
    (name : String) (db db' : Tables)
    → lock_name name db ≡ ok db'
    → (db'.delegates ≡ db.delegates) × (db'.votes ≡ db.votes)
unfolding lock_name
lock_name_rest name db db' h =
    let (free, e) = guard_ok (contains db.locks name) "Lock name exists already" _ db' h in
    (ap (λ d. d.delegates) (sym (ok_inj e)), ap (λ d. d.votes) (sym (ok_inj e)))

update_account_rest :
    (address : String) (s : Account) (db db' : Tables)
    → s.address ≡ address
    → update_account address (λ _. s) db ≡ ok db'
    → (db'.delegates ≡ db.delegates)
      × (db'.votes ≡ db.votes)
      × (find_first (has_address address) db'.accounts ≡ some s)
unfolding update_account
update_account_rest address s db db' same h =
    let (a, found, e) =
      or_throw_ok (find_first (has_address address) db.accounts) "Entity not found" _ db' h in
    (
      ap (λ d. d.delegates) (sym (ok_inj e)),
      ap (λ d. d.votes) (sym (ok_inj e)),
      subst (λ d. find_first (has_address address) d.accounts ≡ some s) (ok_inj e)
          (find_first-update_first address (λ _. s) a db.accounts same found),
    )

digits_step :
    (n k : ℕ)
    → 10 ≤ n
    → n / 10 < 10 ^ suc k
    → (k ≡ 0) ⊎ (10 ^ k ≤ n / 10)
    → (n < 10 ^ suc (suc k)) × (10 ^ suc k ≤ n)
digits_step n k large below (inl first) =
    let one : 10 ^ suc k ≡ 10 = ap (λ j. 10 ^ suc j) first in (omega arith, omega arith)
digits_step n k large below (inr above) = (omega arith, omega arith)

-- A number of k + 1 digits is below 10 ^ (k + 1), and not below 10 ^ k unless k is 0.
abbrev pub HasDigits : ℕ → ℕ → Type 0
HasDigits k n = (n < 10 ^ suc k) × ((k ≡ 0) ⊎ (10 ^ k ≤ n))

digits_upto-HasDigits :
    (fuel n : ℕ) → n ≤ fuel → (k : ℕ) × (digits_upto fuel n ≡ suc k) × HasDigits k n
unfolding digits_upto
digits_upto-HasDigits zero n enough = (0, refl, (omega arith, inl refl))
digits_upto-HasDigits (suc fuel) n enough = elim (Bool-cases (ltb n 10)) [
  | inl small ↦ (0, ground (arith, small), (ground (arith, small), inl refl))
  | inr large ↦
      let (k, e, (below, above)) = digits_upto-HasDigits fuel (n / 10) (ground (arith, large)) in
      let (below', above') = digits_step n k (ground (arith, large)) below above in
      (suc k, ground (arith, large, e), (below', inr above'))
]

-- An `unlock` that returns no message, by a sender that is not a delegate and has a balance of n, keeps every
-- vote and the weight that the votes gave, though nothing is locked any more. The sender's new balance is
-- n * 10 ^ (k + 1) plus the locked amount, where k + 1 is how many decimal digits this amount has, so that the
-- two decimal texts stand behind each other. The row is otherwise the old one, with nothing locked.
pub unlock_keeps_votes :
    (c : Context) (db db' : Tables) (n : ℕ)
    → c.sender.is_delegate ≡ false
    → c.sender.gny ≡ pos n
    → unlock c [] db ≡ ok db'
    → (db'.delegates ≡ db.delegates)
      × (db'.votes ≡ db.votes)
      × (k : ℕ) × HasDigits k c.sender.lock_amount
      × (find_first (has_address c.sender.address) db'.accounts
          ≡ some (record c.sender {
            gny = pos (n * 10 ^ suc k + c.sender.lock_amount);
            is_locked = false;
            lock_height = 0;
            lock_amount = 0;
          }))
unfolding unlock decimal_digits
unlock_keeps_votes c db db' n plain balance h =
    let (locked, free, h1) = bind_ok (lock_name (account_lock c) db) _ db' h in
    let (is_locked, h2) = guard_ok (not c.sender.is_locked) "Account is not locked" _ db' h1 in
    let (late, h3) =
      guard_ok (leb_ℤ c.block_height (pos c.sender.lock_height)) "Account cannot unlock" _ db' h2 in
    let (mid, withdrawn, h4) =
      bind_ok (if c.sender.is_delegate then delete_created_votes c.sender locked else ok locked) _
        db' h3 in
    let kept : mid ≡ locked = sym (
      ok_inj (
        sym (ap (λ b. if b then delete_created_votes c.sender locked else ok locked) plain)
        ∙ withdrawn)) in
    let (delegates, votes) = lock_name_rest (account_lock c) db locked free in
    let (delegates', votes', row) =
      update_account_rest c.sender.address (unlocked_sender c.sender) mid db' refl h4 in
    let (k, e, digits) =
      digits_upto-HasDigits c.sender.lock_amount c.sender.lock_amount (omega arith) in
    let written : some (unlocked_sender c.sender)
        ≡ some (record c.sender {
          gny = pos (n * 10 ^ suc k + c.sender.lock_amount);
          is_locked = false;
          lock_height = 0;
          lock_amount = 0;
        }) =
      ap
        (λ g.
          some (record c.sender { gny = g; is_locked = false; lock_height = 0; lock_amount = 0 }))
        (ap (λ g. text_append g c.sender.lock_amount) balance
          ∙ ap (λ d. pos (n * 10 ^ d + c.sender.lock_amount)) e) in
    (
      delegates' ∙ ap (λ d. d.delegates) kept ∙ delegates,
      votes' ∙ ap (λ d. d.votes) kept ∙ votes,
      k,
      digits,
      row ∙ written,
    )
