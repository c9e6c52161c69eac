-- ===== src/Tests/Blocks.antt =====
-- The theorems on rounds and on the processing of blocks, at concrete data.
use gny.Prelude.{
  ◌+◌, ◌*◌, ◌/◌, ◌%◌, String, ◌≡◌, refl, true, false, none, some, if◌then◌else◌, ◌==◌, List, [],
  ◌∷◌, nat_eq, string_eq, option_eq,
}
use gny.Prelude.Int.{pos, ◌+ℤ◌, ◌-ℤ◌, int_eq}
use gny.Interfaces.{Block, Options, Result, ok, err}
use gny.Base.Address.{generate_address}
use gny.Contract.Ledger.{Tables, find_first, has_address, increase_gny}
use gny.Contract.Ledger.Totals.{total_gny}
use gny.Core.State.{State}
use gny.Core.BlocksHelper.{generate_block_short}
use gny.Core.Rounds.{Round, increase_delegate, update_delegate, count_missed, pay_each, end_round}
use gny.Core.Rounds.Pay.{end_round_loses_twice}
use gny.Core.Rounds.Paid.{times, end_round_pays}
use gny.Core.Processing.{Chain, Node}
use gny.Tests.Samples.{platform, bob, key_pair, public_key, genesis, account, dan, tables, runtime}

abbrev after : Result Tables → Tables
after (ok db) = db
after (err message) = tables

abbrev round_tables : Tables
round_tables = record tables { accounts = account bob (pos 9) ∷ []; delegates = dan ∷ [] }

abbrev keys_of_round : List String
keys_of_round = "a" ∷ "b" ∷ []

abbrev round : Round
round = record { fee = 5; reward = 3 }

abbrev paid : Tables
paid = after (end_round platform "b" keys_of_round keys_of_round round round_tables)

paid-ok : end_round platform "b" keys_of_round keys_of_round round round_tables ≡ ok paid
unfolding end_round count_missed pay_each update_delegate increase_delegate increase_gny
    generate_address ◌-ℤ◌ ◌+ℤ◌
paid-ok = refl

end_round_pays_example :
    find_first (has_address bob) paid.accounts
    ≡ some (record (account bob (pos 9)) {
      gny =
          pos 9
          +ℤ pos (times platform bob keys_of_round * (5 / 2 + 3 / 2))
          +ℤ (if generate_address platform "b" == bob
              then (pos (5 / 2 * 2) -ℤ pos 5) +ℤ (pos (3 / 2 * 2) -ℤ pos 3)
              else pos 0);
    })
end_round_pays_example =
    end_round_pays platform "b" keys_of_round keys_of_round round round_tables paid bob
      (account bob (pos 9)) refl paid-ok

end_round_loses_twice_example :
    total_gny paid +ℤ pos (2 * (5 % 2) + 2 * (3 % 2)) ≡ total_gny round_tables +ℤ pos (5 + 3)
end_round_loses_twice_example =
    end_round_loses_twice platform "b" keys_of_round keys_of_round round round_tables paid refl
      paid-ok

abbrev node : Node
node = record {
  runtime = record runtime { now = 1542571230000 };
  decimal = λ n. "1";
  normalize_block = ok;
  modules_are_loaded = true;
}

abbrev received : Block
received = elim (generate_block_short platform key_pair 30 genesis []) [
  | ok b ↦ b
  | err _ ↦ genesis
]

abbrev remote : Options
remote = record { is_local = false; broadcast = false; votes = none }

abbrev chain : Chain
chain = record {
  books = record { tables = round_tables; rounds = []; bookkeeper = [] };
  session = round_tables;
  blocks = genesis ∷ genesis ∷ genesis ∷ genesis ∷ genesis ∷ [];
  transactions = [];
}

abbrev active : List String
active = "" ∷ "" ∷ "" ∷ public_key ∷ []
