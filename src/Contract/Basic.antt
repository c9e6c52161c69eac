-- ===== src/Contract/Basic.antt =====
-- packages/main/src/contract/basic.ts: the contracts of accounts, delegates and votes. A returned message
-- and a thrown one are the same to the caller, so both are `err`; `this` is the context, and the
-- arguments are texts.
use gny.Prelude.{
  ℕ, zero, suc, ◌+◌, ◌-◌, ◌*◌, ◌^◌, String, ap, Bool, true, false, not, ◌&&◌, ◌||◌, none, some,
  List, [], ◌∷◌, ◌++◌, arith, ltb, leb, if◌then◌else◌, ◌==◌, nat_eq, string_eq, option_eq, is_some,
  option_beq, length, set,
}
use gny.Prelude.Int.{ℤ, pos, negsuc, ◌+ℤ◌, ◌-ℤ◌, ltb_ℤ, leb_ℤ, int_eq}
use gny.Prelude.Map.{has}
use Prim.Native.String
pub mod Ballot
pub mod Supply
pub mod Unlock
pub mod Holdings
pub mod Weight
use gny.Prelude.Text.{parse_positive, decimal_digits}
use gny.Prelude.Double.{to_double}
use gny.Interfaces.{Account, Context, Transaction, Result, ok, err, ◌>>=◌, ◌>>◌, throw_if, or_throw}
use gny.Base.Platform.{Platform}
use gny.Base.Address.{is_address}
use gny.Contract.Ledger.{
  Delegate, Vote, Transfer, Tables, find_first, has_address, has_name, increase_gny, update_account,
  create_account, create_transfer, create_delegate, increase_votes, create_vote, delete_vote,
  votes_of, lock_name,
}

-- `validate('amount', text)`: a positive decimal, at most 1e48.
abbrev pub amount_of : String → Result ℕ
amount_of text = or_throw (parse_positive text) "Amount should be positive integer" >>= λ n.
    throw_if (ltb (10 ^ 48) n) "Invalid amount range" >> ok n

abbrev pub new_account : String → ℤ → Account
new_account address gny = record {
  address = address;
  username = none;
  gny = gny;
  public_key = none;
  second_public_key = none;
  is_delegate = false;
  is_locked = false;
  lock_height = 0;
  lock_amount = 0;
}

-- `basic.account@${senderId}`
abbrev pub account_lock : Context → String
account_lock c = String.◌++◌ "basic.account@" c.sender.address

abbrev pub max_ℤ : ℤ → ℤ → ℤ
max_ℤ a b = if ltb_ℤ a b then b else a

-- The account that a transfer pays: the row, and the tables after it is paid.
unfoldable pub credit : Platform → String → ℤ → Tables → Result (Account × Tables)
credit p recipient amount db =
    if is_address p recipient
    then elim (find_first (has_address recipient) db.accounts) [
      | some account ↦ increase_gny account.address amount db >>= λ db'. ok (account, db')
      | none ↦ create_account (new_account recipient amount) db >>= λ db'.
          ok (new_account recipient amount, db')
    ]
    else (or_throw (find_first (λ a. option_beq a.username (some recipient)) db.accounts)
          "Recipient name not exist"
        >>= λ account. increase_gny account.address amount db >>= λ db'. ok (account, db'))

abbrev transfer_row : Context → ℕ → Account → Transfer
transfer_row c amount recipient = record {
  tid = c.trs.id;
  height = c.block_height;
  sender_id = c.sender.address;
  recipient_id = recipient.address;
  recipient_name = recipient.username;
  amount = amount;
  timestamp = c.trs.timestamp;
}

-- The payments of `transfer`, with the amount as a JavaScript number.
abbrev pub pay : Platform → Context → ℕ → String → Tables → Result Tables
pay p c amount recipient db = credit p recipient (pos amount) db >>= λ (account, paid).
    increase_gny c.sender.address (pos 0 -ℤ pos amount) paid
    >>= create_transfer (transfer_row c amount account)

abbrev pub underfunded : Context → ℕ → Bool
underfunded c amount = ltb_ℤ (pos 0) c.block_height && ltb_ℤ c.sender.gny (pos amount)

abbrev pub to_self : Context → String → Bool
to_self c recipient = c.sender.address == recipient || option_beq c.sender.username (some recipient)

unfoldable pub transfer : Platform → Context → List String → Tables → Result Tables
transfer p c (text ∷ recipient ∷ []) db =
    throw_if (recipient == "") "Invalid recipient"
    >> (amount_of text >>= λ n.
        throw_if (underfunded c (to_double n)) "Insufficient balance"
        >> (throw_if (to_self c recipient) "Invalid recipient"
            >> pay p c (to_double n) recipient db))
transfer p c _ db = err "Invalid arguments length"

-- The regular expressions of `validate('name', …)` and `validate('publickey', …)` are tests on texts.
abbrev pub Pattern : Type 0
Pattern = String → Bool

unfoldable pub set_user_name : Pattern → Context → List String → Tables → Result Tables
set_user_name is_name c (username ∷ []) db =
    throw_if (not (is_name username)) "Invalid name"
    >> (lock_name (account_lock c) db >>= λ locked.
        throw_if (is_some (find_first (λ a. option_beq a.username (some username)) locked.accounts))
          "Name already registered"
        >> (throw_if (is_some c.sender.username) "Name already set"
            >> update_account c.sender.address (λ a. record a { username = some username }) locked))
set_user_name is_name c _ db = err "Invalid arguments length"

unfoldable pub set_second_passphrase :
    Platform → Pattern → Context → List String → Tables → Result Tables
set_second_passphrase p is_public_key c (public_key ∷ []) db =
    throw_if (not (is_public_key public_key)) "Invalid public key"
    >> (throw_if (not (is_address p c.sender.address)) "Invalid account type"
        >> (lock_name (account_lock c) db >>= λ locked.
            throw_if (is_some c.sender.second_public_key) "Password already set"
            >> update_account c.sender.address
                (λ a. record a { second_public_key = some public_key }) locked))
set_second_passphrase p is_public_key c _ db = err "Invalid arguments length"

abbrev pub min_lock_height : ℕ
min_lock_height = 5760 * 30

-- The checks of `lock` on the height and the amount.
abbrev pub lock_allowed : Context → ℕ → ℕ → Result (Unit {0})
lock_allowed c height amount =
    throw_if (ltb_ℤ (c.sender.gny -ℤ pos 100000000) (pos amount)) "Insufficient balance"
    >> (if c.sender.is_locked
        then throw_if
            (ltb_ℤ (pos height)
              (max_ℤ c.block_height (pos c.sender.lock_height) +ℤ pos min_lock_height))
            "Invalid lock height"
          >> throw_if (amount == 0) "Invalid amount"
        else throw_if (ltb_ℤ (pos height) (c.block_height +ℤ pos min_lock_height))
            "Invalid lock height"
          >> throw_if (amount == 0) "Invalid amount")

-- `increase(Delegate, { votes: delta }, { username })` for each name in turn.
pub increase_all_votes : List String → ℤ → Tables → Result Tables
increase_all_votes [] delta db = ok db
increase_all_votes (name ∷ names) delta db =
    increase_votes name delta db >>= λ db'. increase_all_votes names delta db'

abbrev pub locked_sender : Account → ℕ → ℕ → Account
locked_sender sender height amount = record sender {
  is_locked = true;
  lock_height = height;
  gny = sender.gny -ℤ pos amount;
  lock_amount = sender.lock_amount + amount;
}

unfoldable pub lock : Context → List String → Tables → Result Tables
unfolding increase_all_votes
lock c (height_text ∷ amount_text ∷ []) db = amount_of height_text >>= λ height.
    amount_of amount_text >>= λ amount. lock_name (account_lock c) db >>= λ locked.
    lock_allowed c height amount
    >> (update_account c.sender.address (λ a. locked_sender c.sender height amount) locked
        >>= λ db'. increase_all_votes (votes_of c.sender.address db') (pos amount) db')
lock c _ db = err "Invalid arguments length"

-- The loop of `deleteCreatedVotes`; `-account.lockAmount` is a JavaScript number.
pub delete_votes : Account → List String → Tables → Result Tables
delete_votes account [] db = ok db
delete_votes account (name ∷ names) db =
    increase_votes name (pos 0 -ℤ pos (to_double account.lock_amount)) db >>= λ db'.
    delete_vote (record { voter_address = account.address; delegate = name }) db' >>= λ db''.
    delete_votes account names db''

unfoldable pub delete_created_votes : Account → Tables → Result Tables
delete_created_votes account db =
    if ltb 0 (length (votes_of account.address db)) && ltb 0 account.lock_amount
    then delete_votes account (votes_of account.address db) db
    else ok db

-- `gny += lockAmount` on two decimal texts writes the one behind the other.
abbrev pub text_append : ℤ → ℕ → ℤ
text_append (pos n) m = pos (n * 10 ^ decimal_digits m + m)
text_append (negsuc n) m = pos 0 -ℤ pos (suc n * 10 ^ decimal_digits m + m)

abbrev pub unlocked_sender : Account → Account
unlocked_sender sender = record sender {
  is_locked = false;
  lock_height = 0;
  gny = text_append sender.gny sender.lock_amount;
  lock_amount = 0;
}

unfoldable pub unlock : Context → List String → Tables → Result Tables
unlock c [] db = lock_name (account_lock c) db >>= λ locked.
    throw_if (not c.sender.is_locked) "Account is not locked"
    >> (throw_if (leb_ℤ c.block_height (pos c.sender.lock_height)) "Account cannot unlock"
        >> ((if c.sender.is_delegate then delete_created_votes c.sender locked else ok locked)
            >>= update_account c.sender.address (λ a. unlocked_sender c.sender)))
unlock c (x ∷ args) db = err "Invalid arguments length"

abbrev new_delegate : Context → String → Delegate
new_delegate c username = record {
  address = c.sender.address;
  username = username;
  tid = c.trs.id;
  public_key = c.trs.sender_public_key;
  votes = pos 0;
  produced_blocks = pos 0;
  missed_blocks = pos 0;
  fees = pos 0;
  rewards = pos 0;
}

unfoldable pub register_delegate : Context → List String → Tables → Result Tables
register_delegate c [] db =
    (if ltb_ℤ (pos 0) c.block_height then lock_name (account_lock c) db else ok db) >>= λ locked.
    or_throw c.sender.username "Account has not a name" >>= λ username.
    throw_if c.sender.is_delegate "Account is already Delegate"
    >> (create_delegate (new_delegate c username) locked
        >>= update_account c.sender.address (λ a. record a { is_delegate = true }))
register_delegate c (x ∷ args) db = err "Invalid arguments length"
