-- ===== src/Contract/Basic/Weight.antt =====
-- The weight of a delegate is what its voters have locked.
use gny.Prelude.{
  ℕ, zero, suc, ◌+◌, ◌-◌, String, ◌≡◌, refl, sym, ap, ◌∙◌, Bool, true, false, not, Option, none,
  some, List, [], ◌∷◌, arith, eq_iff, ltb, if◌then◌else◌, ◌==◌, nat_eq, string_eq, option_eq,
  is_some, length, take, contains,
}
use gny.Prelude.Int.{ℤ, pos, ◌+ℤ◌, int_laws, int_eq}
use gny.Prelude.Map.{has}
pub mod Locked
use mathlib.Core.Path.{subst}
use gny.Prelude.Text.{split}
use gny.Interfaces.{
  ok_inj, Account, Context, Result, ok, err, ◌>>=◌, ◌>>◌, throw_if, or_throw, bind_ok, guard_ok,
  or_throw_ok,
}
use gny.Contract.Ledger.{
  Vote, Delegate, Tables, find_first, update_first, has_address, has_name, same_vote,
  update_account, lock_name, increase_votes, create_vote, votes_of, names_voted,
}
use gny.Contract.Basic.{
  account_lock, amount_of, lock, lock_allowed, locked_sender, increase_all_votes,
}
use gny.Contract.Basic.Ballot.{any, unknown, cast, for_all, ballot, vote}

-- What an account has locked, and nothing for an account that is missing.
abbrev pub stake : List Account → String → ℕ
stake accounts address = elim (find_first (has_address address) accounts) [
  | none ↦ 0
  | some a ↦ a.lock_amount
]

-- What the voters of a delegate have locked, together.
abbrev pub weight : List Account → List Vote → String → ℕ
weight accounts [] name = 0
weight accounts (v ∷ votes) name =
    let rest = weight accounts votes name in
    (if v.delegate == name then stake accounts v.voter_address else 0) + rest

abbrev pub Weighs : Option Delegate → ℕ → Type 0
Weighs none n = Unit
Weighs (some d) n = d.votes ≡ pos n

-- Every delegate's row has the weight of its votes.
abbrev pub IsWeighed : Tables → Type 0
IsWeighed db =
    (name : String)
    → Weighs (find_first (has_name name) db.delegates) (weight db.accounts db.votes name)

abbrev pub raised : ℤ → Delegate → Delegate
raised delta d = record d { votes = d.votes +ℤ delta }

bumped : Bool → ℤ → Option Delegate → Option Delegate
bumped b delta none = none
bumped true delta (some d) = some (raised delta d)
bumped false delta (some d) = some d

find_first-raised :
    (name name' : String) (delta : ℤ) (delegates : List Delegate)
    → find_first (has_name name') (update_first (has_name name) (raised delta) delegates)
      ≡ bumped (name == name') delta (find_first (has_name name') delegates)
unfolding bumped
find_first-raised name name' delta [] = refl
find_first-raised name name' delta (d ∷ delegates) = ground (
  arith,
  find_first-raised name name' delta delegates,
  eq_iff d.username name,
  eq_iff d.username name',
  eq_iff name name',
)

pos_sum : (w n : ℕ) → pos w +ℤ pos n ≡ pos (n + w)
pos_sum w n = omega int_laws

Weighs-bumped :
    (b : Bool) (n w : ℕ) (o : Option Delegate)
    → Weighs o w
    → Weighs (bumped b (pos n) o) ((if b then n else 0) + w)
unfolding bumped
Weighs-bumped b n w none h = tt
Weighs-bumped true n w (some d) h = ap (λ x. x +ℤ pos n) h ∙ pos_sum w n
Weighs-bumped false n w (some d) h = h ∙ ap pos {x = w} (omega arith)

-- One raise of a delegate's row.
pub increase_votes-raised :
    (name : String) (delta : ℤ) (db db' : Tables)
    → increase_votes name delta db ≡ ok db'
    → (db'.accounts ≡ db.accounts)
      × (db'.votes ≡ db.votes)
      × (db'.delegates ≡ update_first (has_name name) (raised delta) db.delegates)
unfolding increase_votes
increase_votes-raised name delta db db' h =
    let (d, found, e) =
      or_throw_ok (find_first (has_name name) db.delegates) "Entity not found" _ db' h in
    let same = sym (ok_inj e) in
    (ap (λ t. t.accounts) same, ap (λ t. t.votes) same, ap (λ t. t.delegates) same)

pub raised-Weighs :
    (name name' : String) (n w : ℕ) (db db' : Tables)
    → increase_votes name (pos n) db ≡ ok db'
    → Weighs (find_first (has_name name') db.delegates) w
    → Weighs (find_first (has_name name') db'.delegates) ((if name == name' then n else 0) + w)
raised-Weighs name name' n w db db' h old =
    let (accounts, votes, delegates) = increase_votes-raised name (pos n) db db' h in
    let e =
      ap (find_first (has_name name')) delegates
      ∙ find_first-raised name name' (pos n) db.delegates in
    subst (λ o. Weighs o ((if name == name' then n else 0) + w)) (sym e)
      (Weighs-bumped (name == name') n w (find_first (has_name name') db.delegates) old)

create_vote_rest :
    (v : Vote) (db db' : Tables)
    → create_vote v db ≡ ok db'
    → (db'.accounts ≡ db.accounts) × (db'.votes ≡ v ∷ db.votes) × (db'.delegates ≡ db.delegates)
unfolding create_vote
create_vote_rest v db db' h =
    let (fresh, e) =
      guard_ok (is_some (find_first (same_vote v) db.votes)) "entity exists already" _ db' h in
    let same = sym (ok_inj e) in
    (ap (λ t. t.accounts) same, ap (λ t. t.votes) same, ap (λ t. t.delegates) same)

cast-IsWeighed :
    (c : Context) (name : String) (db db' : Tables)
    → stake db.accounts c.sender.address ≡ c.sender.lock_amount
    → IsWeighed db
    → cast c name db ≡ ok db'
    → IsWeighed db' × (db'.accounts ≡ db.accounts)
cast-IsWeighed c name db db' own weighed h =
    let n = c.sender.lock_amount in
    let v : Vote = record { voter_address = c.sender.address; delegate = name } in
    let (mid, up, h1) = bind_ok (increase_votes name (pos n) db) _ db' h in
    let (accounts, votes, delegates) = increase_votes-raised name (pos n) db mid up in
    let (accounts', votes', delegates') = create_vote_rest v mid db' h1 in
    let same = accounts' ∙ accounts in
    let cast_votes = votes' ∙ ap (λ vs. v ∷ vs) votes in
    (
      λ name'.
          let row =
            raised-Weighs name name' n (weight db.accounts db.votes name') db mid up
              (weighed name') in
          let w1 : weight db.accounts (v ∷ db.votes) name'
              ≡ (if name == name' then n else 0) + weight db.accounts db.votes name' =
            ap (λ m. (if name == name' then m else 0) + weight db.accounts db.votes name') own in
          let w2 : weight db'.accounts db'.votes name' ≡ weight db.accounts (v ∷ db.votes) name' =
            ap (λ accounts. weight accounts db'.votes name') same
            ∙ ap (λ vs. weight db.accounts vs name') cast_votes in
          subst (λ o. Weighs o (weight db'.accounts db'.votes name'))
            (ap (find_first (has_name name')) (sym delegates'))
            (subst (λ w. Weighs (find_first (has_name name') mid.delegates) w) (sym (w2 ∙ w1)) row),
      same,
    )

for_all-IsWeighed :
    (c : Context) (names : List String) (db db' : Tables)
    → stake db.accounts c.sender.address ≡ c.sender.lock_amount
    → IsWeighed db
    → for_all (cast c) names db ≡ ok db'
    → IsWeighed db'
unfolding for_all
for_all-IsWeighed c [] db db' own weighed h = subst IsWeighed (ok_inj h) weighed
for_all-IsWeighed c (name ∷ names) db db' own weighed h =
    let (mid, first, rest) = bind_ok (cast c name db) _ db' h in
    let (weighed', same) = cast-IsWeighed c name db mid own weighed first in
    for_all-IsWeighed c names mid db' (ap (λ accounts. stake accounts c.sender.address) same ∙ own)
      weighed' rest

pub lock_name_tables :
    (name : String) (db db' : Tables)
    → lock_name name db ≡ ok db'
    → record db { locks = name ∷ db.locks } ≡ db'
unfolding lock_name
lock_name_tables name db db' h =
    let (free, e) = guard_ok (contains db.locks name) "Lock name exists already" _ db' h in ok_inj e

-- A `vote` that returns no message keeps every delegate's row at the sum of what its voters have locked, where
-- the context has what the sender's row has locked.
pub vote-IsWeighed :
    (c : Context) (args : List String) (db db' : Tables)
    → stake db.accounts c.sender.address ≡ c.sender.lock_amount
    → IsWeighed db
    → vote c args db ≡ ok db'
    → IsWeighed db'
unfolding vote
vote-IsWeighed c [] db db' own weighed h = ground (arith, h)
vote-IsWeighed c (a ∷ b ∷ args) db db' own weighed h = ground (arith, h)
vote-IsWeighed c (text ∷ []) db db' own weighed h =
    let (locked, free, h1) = bind_ok (lock_name (account_lock c) db) _ db' h in
    let names = split b',' text in
    let current = votes_of c.sender.address locked in
    let (unit, fair, h2) = bind_ok (ballot c names) _ db' h1 in
    let (few, h3) =
      guard_ok (ltb 101 (length current + length names)) "Maximum number of votes exceeded" _ db'
        h2 in
    let (new, h4) = guard_ok (any (contains current) names) "Already voted for delegate" _ db' h3 in
    let (known, h5) = guard_ok (any (unknown locked) names) "Voted delegate not exists" _ db' h4 in
    let tables = lock_name_tables (account_lock c) db locked free in
    for_all-IsWeighed c names locked db'
      (subst (λ d. stake d.accounts c.sender.address ≡ c.sender.lock_amount) tables own)
      (subst IsWeighed tables weighed) h5
