-- ===== src/Core/Votes.antt =====
-- packages/main/src/core/ConsensusHelper.ts: the pending block and the votes for it.
use gny.Prelude.{
  ℕ, zero, suc, ◌+◌, String, Bool, true, false, ◌&&◌, Option, none, some, List, [], ◌∷◌, ◌++◌,
  arith, if◌then◌else◌, ◌==◌, nat_eq, string_eq, option_eq, set,
}
use gny.Prelude.Int.{ℤ, pos, eqb_ℤ, int_eq}
use gny.Prelude.Map.{has, insert}
pub mod Collected
pub mod Stale
use gny.Utils.Slots.{get_slot_number}
use gny.Interfaces.{Block, ManyVotes, Signature}
use gny.Base.Platform.{Platform}
use gny.Base.Consensus.{verify_vote}
use gny.Core.State.{State, marked}

-- `state.pendingVotes`, made where it is missing, with one more signature.
abbrev push_vote : Option ManyVotes → ℕ → String → Signature → ManyVotes
push_vote none height id item = record { height = height; id = id; signatures = item ∷ [] }
push_vote (some votes) height id item = record votes { signatures = votes.signatures ++ item ∷ [] }

-- The votes are for the pending block.
abbrev concerns : Option Block → ManyVotes → Bool
concerns none votes = false
concerns (some b) votes = b.height == votes.height && b.id == votes.id

module _ (p : Platform) where
  -- The body of the loop of `addPendingVotes`.
  add_vote : ℕ → String → Signature → State → State
  add_vote height id item s =
      if marked item.public_key s.votes_key_set
      then s
      else if verify_vote p height id item
      then record s {
        votes_key_set = insert item.public_key true s.votes_key_set;
        pending_votes = some (push_vote s.pending_votes height id item);
      }
      else s

  add_votes : ℕ → String → List Signature → State → State
  add_votes height id [] s = s
  add_votes height id (item ∷ items) s = add_votes height id items (add_vote height id item s)

  -- `addPendingVotes(state, votes)`
  unfoldable pub add_pending_votes : State → ManyVotes → State
  unfolding add_vote add_votes
  add_pending_votes s votes =
      if concerns s.pending_block votes
      then add_votes votes.height votes.id votes.signatures s
      else s

-- `setPendingBlock(state, block)`
abbrev pub set_pending_block : State → Block → State
set_pending_block s b = record s { pending_block = some b }

-- `hasPendingBlock(state, timestamp)`
abbrev pub has_pending_block : State → ℕ → Bool
has_pending_block s timestamp = elim s.pending_block [
  | none ↦ false
  | some b ↦ eqb_ℤ (get_slot_number (pos b.timestamp)) (get_slot_number (pos timestamp))
]

-- `getPendingBlock(state)`
abbrev pub get_pending_block : State → Option Block
get_pending_block s = s.pending_block

-- `clearState(state)`
abbrev pub clear_state : State → State
clear_state s = record s { votes_key_set = []; pending_block = none; pending_votes = none }

-- `CollectingVotes(state)`
abbrev pub collecting_votes : State → State
collecting_votes s = record s { priv_is_collecting_votes = true }
