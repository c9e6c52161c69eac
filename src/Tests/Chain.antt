-- ===== src/Tests/Chain.antt =====
-- The theorems on contracts and transactions, at concrete data.
use gny.Prelude.{
  false, ℕ, suc, ◌+◌, ◌*◌, ◌^◌, String, ◌≡◌, refl, true, some, [], arith, nat_eq, string_eq,
  option_eq,
}
use gny.Prelude.Int.{pos, ◌-ℤ◌, int_eq}
use gny.Prelude.{bool_eq}
use gny.Prelude.Text.{parse_positive}
use gny.Prelude.Double.{to_double}
use gny.Interfaces.{Account, Context, Result, ok, err}
use gny.Base.Address.{is_address}
use gny.Contract.Ledger.{
  Tables, find_first, has_address, increase_gny, create_account, create_transfer, update_account,
  lock_name,
}
use gny.Contract.Ledger.Totals.{total_gny}
use gny.Contract.Basic.{credit, transfer, unlock}
use gny.Prelude.Text.{decimal_digits, digits_upto}
use gny.Contract.Basic.Unlock.{HasDigits, unlock_keeps_votes}
use gny.Core.Transactions.{apply, charge, process_unconfirmed_transaction}
use gny.Core.Transactions.Supply.{apply-total_gny}
use gny.Core.Transactions.Admission.{process_again-err}
use gny.Core.Transactions.Outcome.{Processed, process_unconfirmed_transaction-Processed}
use gny.Tests.Samples.{payment, state, alice, tables, context, runtime, pending}

abbrev after : Result Tables → Tables
after (ok db) = db
after (err message) = tables

abbrev locked : Account
locked = record alice { is_locked = true; lock_height = 2; lock_amount = 300 }

abbrev locked_context : Context
locked_context = record context { sender = locked }

abbrev unlocked : Tables
unlocked = after (unlock locked_context [] tables)

unlock_keeps_votes_example :
    (unlocked.delegates ≡ [])
    × (unlocked.votes ≡ [])
    × (k : ℕ) × HasDigits k 300
    × (find_first (has_address "alice") unlocked.accounts
        ≡ some (record locked {
          gny = pos (9000000000 * 10 ^ suc k + 300);
          is_locked = false;
          lock_height = 0;
          lock_amount = 0;
        }))
unfolding unlock lock_name update_account decimal_digits digits_upto
unlock_keeps_votes_example =
    unlock_keeps_votes locked_context tables unlocked 9000000000 refl refl refl

apply-total_gny_example :
    total_gny (after (apply runtime context tables)) ≡ total_gny tables -ℤ pos 10000000
unfolding apply charge update_account transfer credit parse_positive to_double is_address
    increase_gny create_account create_transfer ◌-ℤ◌
apply-total_gny_example =
    apply-total_gny runtime context tables (after (apply runtime context tables)) refl refl
      (omega arith) refl refl

process_unconfirmed_transaction-Processed_example :
    Processed runtime state payment pending
      (process_unconfirmed_transaction runtime state payment pending)
process_unconfirmed_transaction-Processed_example =
    process_unconfirmed_transaction-Processed runtime state payment pending (λ h. cc) refl (λ h. cc)

process_again-err_example :
    (message : String) × ((process_unconfirmed_transaction runtime state payment
        (process_unconfirmed_transaction runtime state payment pending).1).0
      ≡ err message)
process_again-err_example = process_again-err runtime state state payment pending
