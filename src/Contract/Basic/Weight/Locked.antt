-- ===== src/Contract/Basic/Weight/Locked.antt =====
-- Locking more adds to the weight of the delegates voted for.
use gny.Prelude.{
  ℕ, ◌+◌, String, ◌≡◌, sym, ap, ◌∙◌, inl, inr, some, List, [], ◌∷◌, arith, eq_iff, if◌then◌else◌,
  ◌==◌, nat_eq, string_eq, option_eq, Bool-cases,
}
use gny.Prelude.Int.{pos, int_eq}
use mathlib.Core.Path.{subst}
use gny.Interfaces.{ok_inj, Account, Context, ok, bind_ok, or_throw_ok}
use gny.Contract.Ledger.{
  Vote, Tables, find_first, update_first, has_address, has_name, update_account, lock_name,
  increase_votes, votes_of, names_voted,
}
use gny.Contract.Basic.{
  account_lock, amount_of, lock, lock_allowed, locked_sender, increase_all_votes,
}
use gny.Contract.Basic.Weight.{
  stake, weight, Weighs, IsWeighed, increase_votes-raised, raised-Weighs, lock_name_tables,
}

-- What the raises for a list of names give to one of them.
abbrev gain : List String → ℕ → String → ℕ
gain [] n name = 0
gain (x ∷ names) n name = let rest = gain names n name in (if x == name then n else 0) + rest

increase_all_votes-Weighs :
    (names : List String) (n : ℕ) (name : String) (w : ℕ) (db db' : Tables)
    → increase_all_votes names (pos n) db ≡ ok db'
    → Weighs (find_first (has_name name) db.delegates) w
    → Weighs (find_first (has_name name) db'.delegates) (gain names n name + w)
unfolding increase_all_votes
increase_all_votes-Weighs [] n name w db db' h old =
    subst (λ d. Weighs (find_first (has_name name) d.delegates) (0 + w)) (ok_inj h)
      (subst (λ m. Weighs (find_first (has_name name) db.delegates) m) {x = w} (omega arith) old)
increase_all_votes-Weighs (x ∷ names) n name w db db' h old =
    let (mid, first, rest) = bind_ok (increase_votes x (pos n) db) _ db' h in
    let raised = raised-Weighs x name n w db mid first old in
    let later =
      increase_all_votes-Weighs names n name ((if x == name then n else 0) + w) mid db' rest
        raised in
    subst (λ m. Weighs (find_first (has_name name) db'.delegates) m)
      {x = gain names n name + ((if x == name then n else 0) + w)} (omega arith) later

increase_all_votes_rest :
    (names : List String) (n : ℕ) (db db' : Tables)
    → increase_all_votes names (pos n) db ≡ ok db'
    → (db'.accounts ≡ db.accounts) × (db'.votes ≡ db.votes)
unfolding increase_all_votes
increase_all_votes_rest [] n db db' h =
    (ap (λ d. d.accounts) (sym (ok_inj h)), ap (λ d. d.votes) (sym (ok_inj h)))
increase_all_votes_rest (x ∷ names) n db db' h =
    let (mid, first, rest) = bind_ok (increase_votes x (pos n) db) _ db' h in
    let (accounts, votes, delegates) = increase_votes-raised x (pos n) db mid first in
    let (accounts', votes') = increase_all_votes_rest names n mid db' rest in
    (accounts' ∙ accounts, votes' ∙ votes)

stake-head :
    (s : Account) (height n : ℕ) (address : String) (accounts : List Account)
    → stake (locked_sender s height n ∷ accounts) address
      ≡ (if s.address == address then n else 0) + stake (s ∷ accounts) address
stake-head s height n address accounts = ground arith

-- The stake of every account after the sender has locked n more.
stake-locked :
    (s : Account) (height n : ℕ) (address : String) (accounts : List Account)
    → find_first (has_address s.address) accounts ≡ some s
    → stake (update_first (has_address s.address) (λ _. locked_sender s height n) accounts) address
      ≡ (if s.address == address then n else 0) + stake accounts address
stake-locked s height n address [] stored = cc
stake-locked s height n address (a ∷ accounts) stored = elim (Bool-cases (a.address == s.address)) [
  | inl here ↦
      let same : a ≡ s = ground (arith, here, stored) in
      ap
        (λ b.
          stake
            (if b
              then locked_sender s height n ∷ accounts
              else a
                ∷ update_first (has_address s.address) (λ _. locked_sender s height n) accounts)
            address)
        here
      ∙ stake-head s height n address accounts
      ∙ ap (λ x. (if s.address == address then n else 0) + stake (x ∷ accounts) address) (sym same)
  | inr there ↦
      let stored' : find_first (has_address s.address) accounts ≡ some s =
        ground (arith, there, stored) in
      let rest = stake-locked s height n address accounts stored' in
      ground (
        arith,
        there,
        rest,
        eq_iff a.address s.address,
        eq_iff a.address address,
        eq_iff s.address address,
      )
]

weight-locked :
    (s : Account) (height n : ℕ) (name : String) (accounts : List Account) (votes : List Vote)
    → find_first (has_address s.address) accounts ≡ some s
    → weight
        (update_first (has_address s.address) (λ _. locked_sender s height n) accounts)
        votes
        name
      ≡ gain (names_voted s.address votes) n name + weight accounts votes name
weight-locked s height n name accounts [] stored = omega arith
weight-locked s height n name accounts (v ∷ votes) stored = ground (
  arith,
  weight-locked s height n name accounts votes stored,
  stake-locked s height n v.voter_address accounts stored,
  eq_iff s.address v.voter_address,
  eq_iff v.voter_address s.address,
)

-- The row written, with the other tables kept.
update_account_tables :
    (address : String) (f : Account → Account) (db db' : Tables)
    → update_account address f db ≡ ok db'
    → record db { accounts = update_first (has_address address) f db.accounts } ≡ db'
unfolding update_account
update_account_tables address f db db' h =
    let (a, found, e) =
      or_throw_ok (find_first (has_address address) db.accounts) "Entity not found" _ db' h in
    ok_inj e

-- The tables after the sender's row is written and the delegates' rows are raised.
raised-IsWeighed :
    (s : Account) (height n : ℕ) (db mid db' : Tables)
    → find_first (has_address s.address) db.accounts ≡ some s
    → IsWeighed db
    → update_account s.address (λ _. locked_sender s height n) db ≡ ok mid
    → increase_all_votes (votes_of s.address mid) (pos n) mid ≡ ok db'
    → IsWeighed db'
raised-IsWeighed s height n db mid db' stored weighed written raised_all name =
    let tables = update_account_tables s.address (λ _. locked_sender s height n) db mid written in
    let (accounts, votes) = increase_all_votes_rest (votes_of s.address mid) n mid db' raised_all in
    let old : Weighs (find_first (has_name name) mid.delegates) (weight db.accounts db.votes name) =
      subst
        (λ d. Weighs (find_first (has_name name) d.delegates) (weight db.accounts db.votes name))
        tables (weighed name) in
    let new =
      increase_all_votes-Weighs (votes_of s.address mid) n name (weight db.accounts db.votes name)
        mid db' raised_all old in
    let w1 : weight db'.accounts db'.votes name ≡ weight mid.accounts mid.votes name =
      ap (λ x. weight x db'.votes name) accounts ∙ ap (λ x. weight mid.accounts x name) votes in
    let w2 : weight mid.accounts mid.votes name
        ≡ gain (votes_of s.address mid) n name + weight db.accounts db.votes name =
      subst
        (λ d.
          weight d.accounts d.votes name
          ≡ gain (votes_of s.address d) n name + weight db.accounts db.votes name)
        tables (weight-locked s height n name db.accounts db.votes stored) in
    subst (λ w. Weighs (find_first (has_name name) db'.delegates) w) (sym (w1 ∙ w2)) new

-- A `lock` that returns no message keeps every delegate's row at the sum of what its voters have locked, where
-- the context's sender is the stored row.
pub lock-IsWeighed :
    (c : Context) (args : List String) (db db' : Tables)
    → find_first (has_address c.sender.address) db.accounts ≡ some c.sender
    → IsWeighed db
    → lock c args db ≡ ok db'
    → IsWeighed db'
unfolding lock
lock-IsWeighed c [] db db' stored weighed h = ground (arith, h)
lock-IsWeighed c (a ∷ []) db db' stored weighed h = ground (arith, h)
lock-IsWeighed c (a ∷ b ∷ x ∷ args) db db' stored weighed h = ground (arith, h)
lock-IsWeighed c (height_text ∷ amount_text ∷ []) db db' stored weighed h =
    let (height, parsed, h1) = bind_ok (amount_of height_text) _ db' h in
    let (amount, parsed', h2) = bind_ok (amount_of amount_text) _ db' h1 in
    let (locked, free, h3) = bind_ok (lock_name (account_lock c) db) _ db' h2 in
    let (unit, allowed, h4) = bind_ok (lock_allowed c height amount) _ db' h3 in
    let (mid, written, h5) =
      bind_ok (update_account c.sender.address (λ a. locked_sender c.sender height amount) locked) _
        db' h4 in
    let tables = lock_name_tables (account_lock c) db locked free in
    raised-IsWeighed c.sender height amount locked mid db'
      (subst (λ d. find_first (has_address c.sender.address) d.accounts ≡ some c.sender) tables
        stored)
      (subst IsWeighed tables weighed) written h5
