-- ===== src/Contract/Ledger.antt =====
-- The tables that the contracts read and write through `global.app.sdb` (packages/database-postgres/src/
-- smartDB.ts and dbSession.ts): the cached rows of each model. An amount in a row is an integer, as
-- `increase` stores whatever the sum is.
use gny.Prelude.{
  ℕ, zero, suc, ◌+◌, String, Bool, not, ◌&&◌, Option, none, some, List, [], ◌∷◌, arith,
  if◌then◌else◌, ◌==◌, nat_eq, string_eq, option_eq, is_some, contains,
}
use gny.Prelude.Int.{ℤ, ◌+ℤ◌, int_eq}
use gny.Prelude.Map.{has}
pub mod Totals
use gny.Interfaces.{Account, Result, ok, err, ◌>>=◌, ◌>>◌, throw_if, or_throw}

-- `IDelegate`
pub record Delegate : Type 0 where
  pub address : String
  pub username : String
  pub tid : String
  pub public_key : Option String
  pub votes : ℤ
  pub produced_blocks : ℤ
  pub missed_blocks : ℤ
  pub fees : ℤ
  pub rewards : ℤ

pub record Vote : Type 0 where
  pub voter_address : String
  pub delegate : String

-- `ITransfer`; the currency is always GNY here.
pub record Transfer : Type 0 where
  pub tid : String
  pub height : ℤ
  pub sender_id : String
  pub recipient_id : String
  pub recipient_name : Option String
  pub amount : ℕ
  pub timestamp : ℕ

pub record Tables : Type 0 where
  pub accounts : List Account
  pub delegates : List Delegate
  pub votes : List Vote
  pub transfers : List Transfer
  -- The names locked in the current block, confirmed or not.
  pub locks : List String

module _ {ℓ} {A : Type ℓ} where
  abbrev pub find_first : (A → Bool) → List A → Option A
  find_first test [] = none
  find_first test (x ∷ xs) = if test x then some x else find_first test xs

  abbrev pub update_first : (A → Bool) → (A → A) → List A → List A
  update_first test f [] = []
  update_first test f (x ∷ xs) =
      let rest = update_first test f xs in if test x then f x ∷ xs else x ∷ rest

  abbrev pub filter : (A → Bool) → List A → List A
  filter test [] = []
  filter test (x ∷ xs) = let rest = filter test xs in if test x then x ∷ rest else rest

abbrev pub has_address : String → Account → Bool
has_address address a = a.address == address

-- `ensureEntityTracking` throws if there is no such row.
unfoldable pub increase_gny : String → ℤ → Tables → Result Tables
increase_gny address delta db =
    or_throw (find_first (has_address address) db.accounts) "Entity not found" >>= λ _.
    ok (record db {
      accounts =
          update_first (has_address address) (λ a. record a { gny = a.gny +ℤ delta }) db.accounts;
    })

-- `update(Account, row, { address })` with the changed fields of a row.
unfoldable pub update_account : String → (Account → Account) → Tables → Result Tables
update_account address f db =
    or_throw (find_first (has_address address) db.accounts) "Entity not found" >>= λ _.
    ok (record db { accounts = update_first (has_address address) f db.accounts })

-- `create(Account, row)`
unfoldable pub create_account : Account → Tables → Result Tables
create_account a db =
    throw_if (is_some (find_first (has_address a.address) db.accounts)) "entity exists already"
    >> ok (record db { accounts = a ∷ db.accounts })

unfoldable pub create_transfer : Transfer → Tables → Result Tables
create_transfer t db =
    throw_if (is_some (find_first (λ u. u.tid == t.tid) db.transfers)) "entity exists already"
    >> ok (record db { transfers = t ∷ db.transfers })

unfoldable pub create_delegate : Delegate → Tables → Result Tables
create_delegate d db =
    throw_if (is_some (find_first (λ e. e.address == d.address) db.delegates))
      "entity exists already"
    >> ok (record db { delegates = d ∷ db.delegates })

abbrev pub has_name : String → Delegate → Bool
has_name name d = d.username == name

-- `increase(Delegate, { votes }, { username })`
unfoldable pub increase_votes : String → ℤ → Tables → Result Tables
increase_votes name delta db =
    or_throw (find_first (has_name name) db.delegates) "Entity not found" >>= λ _. ok (record db {
      delegates =
          update_first (has_name name) (λ d. record d { votes = d.votes +ℤ delta }) db.delegates;
    })

abbrev pub same_vote : Vote → Vote → Bool
same_vote v w = v.voter_address == w.voter_address && v.delegate == w.delegate

unfoldable pub create_vote : Vote → Tables → Result Tables
create_vote v db =
    throw_if (is_some (find_first (same_vote v) db.votes)) "entity exists already"
    >> ok (record db { votes = v ∷ db.votes })

unfoldable pub delete_vote : Vote → Tables → Result Tables
delete_vote v db = or_throw (find_first (same_vote v) db.votes) "Entity not found" >>= λ _.
    ok (record db { votes = filter (λ w. not (same_vote v w)) db.votes })

-- `findAll(Vote, { voterAddress })`, as the usernames voted for.
abbrev pub names_voted : String → List Vote → List String
names_voted address [] = []
names_voted address (v ∷ vs) =
    let rest = names_voted address vs in
    if v.voter_address == address then v.delegate ∷ rest else rest

abbrev pub votes_of : String → Tables → List String
votes_of address db = names_voted address db.votes

-- `lock(name)`, which throws on a name that is locked in this block.
unfoldable pub lock_name : String → Tables → Result Tables
lock_name name db =
    throw_if (contains db.locks name) "Lock name exists already"
    >> ok (record db { locks = name ∷ db.locks })
