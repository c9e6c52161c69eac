-- ===== src/Tests/Weight.antt =====
-- The theorems on the weight of delegates, at concrete data.
use gny.Prelude.{
  ◌+◌, String, refl, Bool, true, false, none, some, List, [], ◌∷◌, if◌then◌else◌, ◌==◌, nat_eq,
  string_eq, option_eq,
}
use gny.Prelude.Int.{◌+ℤ◌, ◌-ℤ◌, int_eq}
use gny.Prelude.Text.{split, parse_positive}
use gny.Interfaces.{Account, Context, Result, ok, err}
use gny.Contract.Ledger.{Tables, increase_votes, create_vote, update_account, lock_name}
use gny.Contract.Basic.{lock}
use gny.Contract.Basic.Ballot.{is_uniq, for_all, vote}
use gny.Contract.Basic.Weight.{Weighs, IsWeighed, vote-IsWeighed}
use gny.Contract.Basic.Weight.Locked.{lock-IsWeighed}
use gny.Tests.Samples.{alice, context, tables, dan}

abbrev after : Result Tables → Tables
after (ok db) = db
after (err message) = tables

-- A voter that has locked coins, and has not voted.
abbrev voter : Account
voter = record alice { is_locked = true; lock_height = 900000; lock_amount = 300 }

abbrev ballot_context : Context
ballot_context = record context { sender = voter }

abbrev ballot_tables : Tables
ballot_tables = record tables { accounts = voter ∷ []; delegates = dan ∷ [] }

dan-Weighs : (test : Bool) → Weighs (if test then some dan else none) 0
dan-Weighs true = refl
dan-Weighs false = tt

vote-IsWeighed_example : IsWeighed (after (vote ballot_context ("dan" ∷ []) ballot_tables))
unfolding vote is_uniq for_all split increase_votes create_vote lock_name ◌+ℤ◌
vote-IsWeighed_example =
    vote-IsWeighed ballot_context ("dan" ∷ []) ballot_tables
      (after (vote ballot_context ("dan" ∷ []) ballot_tables)) refl
      (λ name. dan-Weighs ("dan" == name)) refl

-- An account that has voted and locks its first coins.
abbrev voted_tables : Tables
voted_tables = record tables {
  delegates = dan ∷ [];
  votes = record { voter_address = "alice"; delegate = "dan" } ∷ [];
}

dan-Weighs_voted :
    (test : Bool) → Weighs (if test then some dan else none) ((if test then 0 else 0) + 0)
dan-Weighs_voted true = refl
dan-Weighs_voted false = tt

abbrev lock_arguments : List String
lock_arguments = "900000" ∷ "300" ∷ []

lock-IsWeighed_example : IsWeighed (after (lock context lock_arguments voted_tables))
unfolding lock parse_positive lock_name update_account increase_votes ◌-ℤ◌ ◌+ℤ◌
lock-IsWeighed_example =
    lock-IsWeighed context lock_arguments voted_tables
      (after (lock context lock_arguments voted_tables)) refl
      (λ name. dan-Weighs_voted ("dan" == name)) refl
