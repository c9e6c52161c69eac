-- ===== src/Tests/Core.antt =====
-- The theorems on the consensus state, the checks of blocks, and the delegates, at concrete data.
use gny.Prelude.{
  ℕ, ◌+◌, String, ◌≡◌, refl, true, ◌&&◌, none, some, [], ◌∷◌, arith, eq_iff, if◌then◌else◌, ◌==◌,
  nat_eq, string_eq, option_eq, is_some,
}
use gny.Prelude.Int.{◌+ℤ◌, ◌-ℤ◌, int_eq}
use gny.Prelude.Map.{Map, lookup}
use gny.Utils.Slots.{get_epoch_time}
use gny.Interfaces.{Block, KeyPair, ManyVotes, Signature, Transaction, ok, err}
use gny.Base.TransactionBase.{get_bytes}
use gny.Core.State.{State}
use gny.Core.Votes.{add_pending_votes, set_pending_block}
use gny.Core.Votes.Collected.{IsCollected, accept, collected, add_pending_votes_refines}
use gny.Core.Votes.Stale.{Extends, set_pending_block_keeps_votes}
use gny.Core.BlocksHelper.{
  are_transactions_duplicated, are_transactions_exceeding_payload_length, verify_block_slot,
  generate_block_short, get_fees_of_all,
}
use gny.Core.Delegates.{get_block_slot_data, generate_delegate_list, outer}
use gny.Core.Delegates.Slot.{FirstSlot, get_block_slot_data-FirstSlot, get_block_slot_data-is_some}
use gny.Core.Delegates.Shuffle.{occurrences, generate_delegate_list-occurrences}
use gny.Core.Blocks.{verify_block}
use gny.Core.Blocks.Generated.{generate_block_short-verify_block}
use gny.Core.Blocks.Payload.{with_transactions, verify_block_ignores_payload}
use gny.Tests.Samples.{
  platform, platform-IsHex, key_pair, key_pair-IsKeyPair, public_key, payment, genesis, state,
}

abbrev next : Block
next = record genesis { id = "next"; height = 5; prev_block_id = some "genesis"; timestamp = 30 }

abbrev key_pairs : Map String KeyPair
key_pairs = ("a", key_pair) ∷ []

get_block_slot_data-FirstSlot_example :
    FirstSlot 101 7 ("b" ∷ "a" ∷ []) key_pairs (get_block_slot_data 7 ("b" ∷ "a" ∷ []) key_pairs)
get_block_slot_data-FirstSlot_example =
    get_block_slot_data-FirstSlot 7 ("b" ∷ "a" ∷ []) key_pairs (λ e. ground (arith, e))

get_block_slot_data-is_some_example :
    is_some (get_block_slot_data 7 ("b" ∷ "a" ∷ []) key_pairs) ≡ true
unfolding lookup
get_block_slot_data-is_some_example =
    get_block_slot_data-is_some 7 1 "a" key_pair ("b" ∷ "a" ∷ []) key_pairs (omega arith) refl refl

generate_delegate_list-occurrences_example :
    ((key : String)
      → occurrences key (generate_delegate_list platform (λ n. "1") 5 ("a" ∷ "b" ∷ []))
        ≡ occurrences key ("a" ∷ "b" ∷ []))
    × ((extra : ℕ)
        → outer platform (2 + extra) 0 (platform.sha256 (platform.utf8 "1")) ("a" ∷ "b" ∷ [])
          ≡ generate_delegate_list platform (λ n. "1") 5 ("a" ∷ "b" ∷ []))
generate_delegate_list-occurrences_example =
    generate_delegate_list-occurrences platform (λ n. "1") 5 ("a" ∷ "b" ∷ [])

-- What the node generates on `genesis`.
abbrev generated : Block
generated = elim (generate_block_short platform key_pair 30 genesis (payment ∷ [])) [
  | ok b ↦ b
  | err _ ↦ genesis
]

generated-accepted : verify_block platform state 1542571230000 generated none [] ≡ ok generated
unfolding verify_block_slot generate_block_short get_epoch_time ◌-ℤ◌ ◌+ℤ◌
    are_transactions_exceeding_payload_length get_bytes
generated-accepted =
    generate_block_short-verify_block platform state 1542571230000 key_pair 30 genesis generated
      (payment ∷ []) [] platform-IsHex key_pair-IsKeyPair refl
      (λ e. ground (arith, eq_iff "genesis" "", e)) (omega arith) (refl, tt) refl refl

generate_block_short-verify_block_example :
    verify_block platform state 1542571230000 generated none [] ≡ ok generated
unfolding verify_block_slot generate_block_short get_epoch_time ◌-ℤ◌ ◌+ℤ◌
    are_transactions_exceeding_payload_length get_bytes
generate_block_short-verify_block_example =
    generate_block_short-verify_block platform state 1542571230000 key_pair 30 genesis generated
      (payment ∷ []) [] platform-IsHex key_pair-IsKeyPair refl
      (λ e. ground (arith, eq_iff "genesis" "", e)) (omega arith) (refl, tt) refl refl

-- The same block with another payment of the same fee.
abbrev other_payment : Transaction
other_payment = record payment { id = "other"; args = some "900,Geve" }

verify_block_ignores_payload_example :
    verify_block platform state 1542571230000
      (with_transactions (other_payment ∷ []) generated)
      none
      []
    ≡ ok (with_transactions (other_payment ∷ []) generated)
unfolding verify_block_slot generate_block_short get_epoch_time ◌-ℤ◌ ◌+ℤ◌
    are_transactions_duplicated get_fees_of_all are_transactions_exceeding_payload_length get_bytes
verify_block_ignores_payload_example =
    verify_block_ignores_payload platform state 1542571230000 generated generated none []
      (other_payment ∷ []) generated-accepted (omega arith) refl refl refl

abbrev collecting : State
collecting = record state { pending_block = some next }

abbrev vote_item : Signature
vote_item = record {
  public_key = public_key;
  signature = platform.to_hex (platform.sign [] key_pair.private_key);
}

abbrev votes : ManyVotes
votes = record { height = 5; id = "next"; signatures = vote_item ∷ vote_item ∷ [] }

collecting-IsCollected : IsCollected platform 5 "next" collecting
unfolding lookup
collecting-IsCollected = record {
  keyed = λ key. refl;
  single = tt;
  verified = tt;
  about = λ votes e. cc;
}

add_pending_votes_refines_example :
    IsCollected platform 5 "next" (add_pending_votes platform collecting votes)
    × (collected (add_pending_votes platform collecting votes) ≡ (
        if next.height == votes.height && next.id == votes.id
        then accept platform 5 "next" (collected collecting) votes.signatures
        else collected collecting))
add_pending_votes_refines_example =
    add_pending_votes_refines platform next collecting votes refl collecting-IsCollected

set_pending_block_keeps_votes_example :
    Extends votes
      (add_pending_votes platform
        (set_pending_block (record state { pending_votes = some votes }) generated)
        votes).pending_votes
set_pending_block_keeps_votes_example =
    set_pending_block_keeps_votes platform votes (record state { pending_votes = some votes })
      generated votes refl
