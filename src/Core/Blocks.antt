-- ===== src/Core/Blocks.antt =====
-- packages/main/src/core/blocks.ts: the verification of a block.
use gny.Prelude.{
  ℕ, zero, suc, String, Bool, true, not, ◌&&◌, Option, none, some, List, [], ◌∷◌, arith, ltb,
  if◌then◌else◌, ◌==◌, nat_eq, string_eq, option_eq, option_beq, length, set, contains,
}
use gny.Prelude.Int.{pos, int_eq}
use gny.Prelude.Map.{has}
pub mod Generated
pub mod Payload
use gny.Utils.Constants.{max_txs_per_block}
use gny.Utils.Reward.{calculate_reward}
use gny.Interfaces.{
  Block, ManyVotes, Signature, Transaction, Result, ok, err, ◌>>=◌, ◌>>◌, throw_if,
}
use gny.Base.Platform.{Platform}
use gny.Base.BlockBase.{get_id, verify_signature}
use gny.Base.Consensus.{has_enough_votes_remote, verify_vote}
use gny.Core.State.{State, last_id}
use gny.Core.BlocksHelper.{get_fees_of_all, are_transactions_duplicated, verify_block_slot}

module _ (p : Platform) where
  -- The loop of `verifyBlockVotes(votes, delegateList)`.
  verify_signatures : ℕ → String → List String → List Signature → Result (Unit {0})
  verify_signatures height id delegates [] = ok tt
  verify_signatures height id delegates (item ∷ items) =
      throw_if (not (contains delegates item.public_key)) "Votes key is not in the top list"
      >> (throw_if (not (verify_vote p height id item)) "Failed to verify vote signature"
          >> verify_signatures height id delegates items)

  unfoldable pub verify_block_votes : ManyVotes → List String → Result (Unit {0})
  unfolding verify_signatures
  verify_block_votes votes delegates =
      verify_signatures votes.height votes.id delegates votes.signatures

  -- The checks on `options.votes`.
  abbrev pub check_votes : Block → Option ManyVotes → List String → Result (Unit {0})
  check_votes block none delegates = ok tt
  check_votes block (some votes) delegates =
      throw_if (not (block.height == votes.height)) "Votes height is not correct"
      >> (throw_if (not (block.id == votes.id)) "Votes id is not correct"
          >> (throw_if (not (has_enough_votes_remote votes)) "Not enough remote votes"
              >> verify_block_votes votes delegates))

  -- `!block.prevBlockId`
  abbrev pub no_previous : Block → Bool
  no_previous block = elim block.prev_block_id [ none ↦ true | some id ↦ id == "" ]

  abbrev pub slot_fits : State → ℕ → Block → Result Bool
  slot_fits s now block = if block.height == 0 then ok true else verify_block_slot s now block

  -- The checks on the header: previous block, signature, place in the chain, and time.
  abbrev pub check_header : State → ℕ → Block → Result (Unit {0})
  check_header s now block =
      throw_if (no_previous block && not (block.height == 0)) "Previous block should not be null"
      >> (throw_if (not (verify_signature p block)) "Failed to verify block signature"
          >> (last_id s.last_block >>= λ last.
              throw_if (not (option_beq block.prev_block_id last)) "Incorrect previous block hash"
              >> (slot_fits s now block >>= λ fits.
                  throw_if (not fits) "Can't verify block timestamp")))

  -- The checks on the transactions. Their bytes can always be made in this model.
  abbrev pub check_transactions : Block → Result (Unit {0})
  check_transactions block =
      throw_if (ltb max_txs_per_block (length block.transactions)) "Invalid amount of block assets"
      >> (throw_if (not (length block.transactions == block.count)) "Invalid transaction count"
          >> (throw_if (are_transactions_duplicated block.transactions)
                "Duplicate transaction id in block"
              >> throw_if (not (get_fees_of_all block.transactions == block.fees))
                  "Invalid total fees"))

  -- `verifyBlock(state, block, options, delegateList)`, with the clock; the block gets its id.
  unfoldable pub verify_block : State → ℕ → Block → Option ManyVotes → List String → Result Block
  verify_block s now block votes delegates =
      let named : Block = record block { id = get_id p block } in
      check_header s now named
      >> (check_transactions named
          >> (throw_if (not (calculate_reward (pos named.height) == named.reward))
                "Invalid block reward"
              >> (check_votes named votes delegates >> ok named)))
