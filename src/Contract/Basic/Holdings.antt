-- ===== src/Contract/Basic/Holdings.antt =====
-- The contracts of basic.ts that move no coins.
use gny.Prelude.{
  ◌+◌, String, ◌≡◌, refl, sym, ap, ◌∙◌, Bool, true, false, not, some, List, [], ◌∷◌, ltb,
  if◌then◌else◌, ◌==◌, nat_eq, string_eq, option_eq, is_some, option_beq, length, contains,
}
use gny.Prelude.Int.{pos, ◌-ℤ◌, ltb_ℤ, int_eq}
use gny.Prelude.Text.{split}
use gny.Interfaces.{ok_inj, Context, Result, ok, bind_ok, guard_ok, or_throw_ok}
use gny.Base.Platform.{Platform}
use gny.Base.Address.{is_address}
use gny.Contract.Ledger.{
  Vote, Delegate, Tables, find_first, same_vote, lock_name, increase_votes, create_vote,
  delete_vote, create_delegate, votes_of,
}
use gny.Contract.Ledger.Totals.{holdings, sum_of, total_gny, update_account-total}
use gny.Contract.Basic.{
  Pattern, account_lock, set_user_name, set_second_passphrase, register_delegate,
}
use gny.Contract.Basic.Ballot.{any, unknown, cast, withdraw, for_all, ballot, vote, unvote}
use gny.Contract.Basic.Supply.{lock_name-accounts, increase_votes-accounts}

-- The same coins before and after.
abbrev pub Keeps : Tables → Tables → Type 0
Keeps db db' = total_gny db' ≡ total_gny db

of_rows : (db db' : Tables) → db'.accounts ≡ db.accounts → Keeps db db'
of_rows db db' e = ap (sum_of holdings) e

lock_name-Keeps : (name : String) (db db' : Tables) → lock_name name db ≡ ok db' → Keeps db db'
lock_name-Keeps name db db' h = of_rows db db' (lock_name-accounts name db db' h)

pub set_user_name-Keeps :
    (is_name : Pattern) (c : Context) (args : List String) (db db' : Tables)
    → set_user_name is_name c args db ≡ ok db'
    → Keeps db db'
unfolding set_user_name
set_user_name-Keeps is_name c [] db db' h = cc
set_user_name-Keeps is_name c (a ∷ b ∷ args) db db' h = cc
set_user_name-Keeps is_name c (username ∷ []) db db' h =
    let (valid, h1) = guard_ok (not (is_name username)) "Invalid name" _ db' h in
    let (locked, free, h2) = bind_ok (lock_name (account_lock c) db) _ db' h1 in
    let (fresh, h3) =
      guard_ok (is_some (find_first (λ a. option_beq a.username (some username)) locked.accounts))
        "Name already registered" _ db' h2 in
    let (unset, h4) = guard_ok (is_some c.sender.username) "Name already set" _ db' h3 in
    update_account-total c.sender.address (λ a. record a { username = some username }) locked db'
      (λ a found. refl) h4
    ∙ lock_name-Keeps (account_lock c) db locked free

pub set_second_passphrase-Keeps :
    (p : Platform) (is_key : Pattern) (c : Context) (args : List String) (db db' : Tables)
    → set_second_passphrase p is_key c args db ≡ ok db'
    → Keeps db db'
unfolding set_second_passphrase
set_second_passphrase-Keeps p is_key c [] db db' h = cc
set_second_passphrase-Keeps p is_key c (a ∷ b ∷ args) db db' h = cc
set_second_passphrase-Keeps p is_key c (key ∷ []) db db' h =
    let (valid, h1) = guard_ok (not (is_key key)) "Invalid public key" _ db' h in
    let (plain, h2) =
      guard_ok (not (is_address p c.sender.address)) "Invalid account type" _ db' h1 in
    let (locked, free, h3) = bind_ok (lock_name (account_lock c) db) _ db' h2 in
    let (unset, h4) =
      guard_ok (is_some c.sender.second_public_key) "Password already set" _ db' h3 in
    update_account-total c.sender.address (λ a. record a { second_public_key = some key }) locked
      db' (λ a found. refl) h4
    ∙ lock_name-Keeps (account_lock c) db locked free

register_lock-Keeps :
    (test : Bool) (name : String) (db db' : Tables)
    → (if test then lock_name name db else ok db) ≡ ok db'
    → Keeps db db'
register_lock-Keeps true name db db' h = lock_name-Keeps name db db' h
register_lock-Keeps false name db db' h = of_rows db db' (ap (λ d. d.accounts) (sym (ok_inj h)))

create_delegate-Keeps :
    (d : Delegate) (db db' : Tables) → create_delegate d db ≡ ok db' → Keeps db db'
unfolding create_delegate
create_delegate-Keeps d db db' h =
    let (fresh, e) =
      guard_ok (is_some (find_first (λ e. e.address == d.address) db.delegates))
        "entity exists already" _ db' h in
    of_rows db db' (ap (λ d. d.accounts) (sym (ok_inj e)))

pub register_delegate-Keeps :
    (c : Context) (args : List String) (db db' : Tables)
    → register_delegate c args db ≡ ok db'
    → Keeps db db'
unfolding register_delegate
register_delegate-Keeps c (a ∷ args) db db' h = cc
register_delegate-Keeps c [] db db' h =
    let (locked, free, h1) =
      bind_ok (if ltb_ℤ (pos 0) c.block_height then lock_name (account_lock c) db else ok db) _ db'
        h in
    let (username, named, h2) = or_throw_ok c.sender.username "Account has not a name" _ db' h1 in
    let (plain, h3) = guard_ok c.sender.is_delegate "Account is already Delegate" _ db' h2 in
    let (mid, created, h4) = bind_ok (create_delegate _ locked) _ db' h3 in
    update_account-total c.sender.address (λ a. record a { is_delegate = true }) mid db'
      (λ a found. refl) h4
    ∙ create_delegate-Keeps _ locked mid created
    ∙ register_lock-Keeps (ltb_ℤ (pos 0) c.block_height) (account_lock c) db locked free

create_vote-Keeps : (v : Vote) (db db' : Tables) → create_vote v db ≡ ok db' → Keeps db db'
unfolding create_vote
create_vote-Keeps v db db' h =
    let (fresh, e) =
      guard_ok (is_some (find_first (same_vote v) db.votes)) "entity exists already" _ db' h in
    of_rows db db' (ap (λ d. d.accounts) (sym (ok_inj e)))

delete_vote-Keeps : (v : Vote) (db db' : Tables) → delete_vote v db ≡ ok db' → Keeps db db'
unfolding delete_vote
delete_vote-Keeps v db db' h =
    let (w, found, e) =
      or_throw_ok (find_first (same_vote v) db.votes) "Entity not found" _ db' h in
    of_rows db db' (ap (λ d. d.accounts) (sym (ok_inj e)))

cast-Keeps :
    (c : Context) (name : String) (db db' : Tables) → cast c name db ≡ ok db' → Keeps db db'
cast-Keeps c name db db' h =
    let (mid, raised, h1) = bind_ok (increase_votes name (pos c.sender.lock_amount) db) _ db' h in
    create_vote-Keeps _ mid db' h1 ∙ of_rows db mid (increase_votes-accounts name _ db mid raised)

withdraw-Keeps :
    (c : Context) (name : String) (db db' : Tables) → withdraw c name db ≡ ok db' → Keeps db db'
withdraw-Keeps c name db db' h =
    let (mid, raised, h1) =
      bind_ok (increase_votes name (pos 0 -ℤ pos c.sender.lock_amount) db) _ db' h in
    delete_vote-Keeps _ mid db' h1 ∙ of_rows db mid (increase_votes-accounts name _ db mid raised)

for_all-Keeps :
    (step : String → Tables → Result Tables)
    → ((name : String) (db db' : Tables) → step name db ≡ ok db' → Keeps db db')
    → (names : List String) (db db' : Tables) → for_all step names db ≡ ok db'
    → Keeps db db'
unfolding for_all
for_all-Keeps step keeps [] db db' h = of_rows db db' (ap (λ d. d.accounts) (sym (ok_inj h)))
for_all-Keeps step keeps (name ∷ names) db db' h =
    let (mid, first, rest) = bind_ok (step name db) _ db' h in
    for_all-Keeps step keeps names mid db' rest ∙ keeps name db mid first

pub vote-Keeps :
    (c : Context) (args : List String) (db db' : Tables) → vote c args db ≡ ok db' → Keeps db db'
unfolding vote
vote-Keeps c [] db db' h = cc
vote-Keeps c (a ∷ b ∷ args) db db' h = cc
vote-Keeps c (text ∷ []) db db' h =
    let (locked, free, h1) = bind_ok (lock_name (account_lock c) db) _ db' h in
    let names = split b',' text in
    let current = votes_of c.sender.address locked in
    let (unit, fair, h2) = bind_ok (ballot c names) _ db' h1 in
    let (few, h3) =
      guard_ok (ltb 101 (length current + length names)) "Maximum number of votes exceeded" _ db'
        h2 in
    let (new, h4) = guard_ok (any (contains current) names) "Already voted for delegate" _ db' h3 in
    let (known, h5) = guard_ok (any (unknown locked) names) "Voted delegate not exists" _ db' h4 in
    for_all-Keeps (cast c) (cast-Keeps c) names locked db' h5
    ∙ lock_name-Keeps (account_lock c) db locked free

pub unvote-Keeps :
    (c : Context) (args : List String) (db db' : Tables) → unvote c args db ≡ ok db' → Keeps db db'
unfolding unvote
unvote-Keeps c [] db db' h = cc
unvote-Keeps c (a ∷ b ∷ args) db db' h = cc
unvote-Keeps c (text ∷ []) db db' h =
    let (locked, free, h1) = bind_ok (lock_name (account_lock c) db) _ db' h in
    let names = split b',' text in
    let current = votes_of c.sender.address locked in
    let (unit, fair, h2) = bind_ok (ballot c names) _ db' h1 in
    let (new, h3) =
      guard_ok (any (λ name. not (contains current name)) names) "Delegate not voted yet" _ db'
        h2 in
    let (known, h4) = guard_ok (any (unknown locked) names) "Voted delegate not exists" _ db' h3 in
    for_all-Keeps (withdraw c) (withdraw-Keeps c) names locked db' h4
    ∙ lock_name-Keeps (account_lock c) db locked free
