-- ===== src/Tests/Base.antt =====
-- The theorems on addresses, votes, proposes, transactions and block signatures, at concrete data.
use gny.Prelude.{
  ◌≡◌, refl, Bool, true, none, some, [], ◌∷◌, arith, nat_eq, string_eq, option_eq, length, All,
}
use gny.Prelude.Int.{pos, ◌-ℤ◌, int_eq}
use gny.Utils.Constants.{min_fee}
use gny.Utils.Slots.{get_epoch_time}
use gny.Prelude.Text.{split}
use gny.Interfaces.{BlockPropose, Transaction}
use gny.Base.Consensus.{
  create_votes, verify_vote, create_votes_verify, create_propose, calculate_propose_hash,
  accept_propose, create_propose-accept_propose,
}
use gny.Base.TransactionBase.{create, verify_transaction, get_bytes, get_id}
use gny.Base.TransactionBase.Accepted.{create-verify_transaction, get_bytes_ambiguous}
use gny.Base.BlockBase.{sign_block, verify_signature, sign-verify_signature}
use gny.Tests.Samples.{
  platform, platform-IsHex, key_pair, key_pair-IsKeyPair, payment, genesis, alice,
}

create_votes_verify_example :
    let votes = create_votes platform (key_pair ∷ []) 5 "block" in
    (votes.height ≡ 5)
    × (votes.id ≡ "block")
    × (length votes.signatures ≡ 1)
    × All (λ vote. verify_vote platform 5 "block" vote ≡ true) votes.signatures
create_votes_verify_example =
    create_votes_verify platform (key_pair ∷ []) 5 "block" platform-IsHex (key_pair-IsKeyPair, tt)

sign-verify_signature_example :
    verify_signature platform
      (record genesis { signature = some (sign_block platform genesis key_pair) })
    ≡ true
sign-verify_signature_example =
    sign-verify_signature platform genesis key_pair platform-IsHex key_pair-IsKeyPair refl refl

create-verify_transaction_example :
    verify_transaction platform 1700000000000 (record {
      trs = create platform 0 0 key_pair none none 10000000 none;
      block_height = pos 5;
      sender = alice;
    })
    ≡ none
unfolding min_fee get_epoch_time ◌-ℤ◌
create-verify_transaction_example =
    create-verify_transaction platform platform-IsHex 1700000000000 0 0 10000000 10000000 key_pair
      none none none (pos 5) alice key_pair-IsKeyPair refl refl (omega arith) (omega arith)

-- What `createPropose` returns for the block.
abbrev propose : BlockPropose
propose = record {
  address = "1.1.1.1:80";
  generator_public_key = genesis.delegate;
  hash = platform.to_hex (4 ∷ 103 ∷ 101 ∷ 110 ∷ []);
  height = 4;
  id = "genesis";
  signature = platform.to_hex (platform.sign [] key_pair.private_key);
  timestamp = 20;
}

create_propose-accept_propose_example : accept_propose platform propose ≡ true
unfolding create_propose calculate_propose_hash split
create_propose-accept_propose_example =
    create_propose-accept_propose platform key_pair genesis "1.1.1.1:80" propose platform-IsHex
      key_pair-IsKeyPair refl

abbrev apart_example : Transaction
apart_example = record payment { message = some "a"; args = some "b" }

abbrev joined_example : Transaction
joined_example = record payment { message = some "ab"; args = none }

get_bytes_ambiguous_example :
    ((skip second : Bool)
      → get_bytes platform apart_example skip second
        ≡ get_bytes platform joined_example skip second)
    × (get_id platform apart_example ≡ get_id platform joined_example)
get_bytes_ambiguous_example = get_bytes_ambiguous platform payment "a" "b" refl
