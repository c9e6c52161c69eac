-- ===== src/Core/BlocksHelper.antt =====
-- packages/main/src/core/BlocksHelper.ts, `class BlocksHelper`. The clock is an argument.
use gny.Prelude.{
  ℕ, zero, suc, ◌+◌, ◌-◌, String, ap, Bool, true, false, not, ◌&&◌, ◌||◌, Option, none, some, List,
  [], ◌∷◌, ◌++◌, map, arith, ltb, leb, if◌then◌else◌, ◌==◌, nat_eq, string_eq, option_eq, length,
  set, concat, contains,
}
use gny.Prelude.Int.{ℤ, pos, ◌+ℤ◌, ◌-ℤ◌, ltb_ℤ, leb_ℤ, eqb_ℤ, int_eq}
use gny.Prelude.Map.{has, insert}
pub mod Checks
use Prim.Native.String
use gny.Utils.Constants.{max_payload_length}
use gny.Utils.Slots.{get_slot_number, get_epoch_time}
use gny.Utils.Reward.{calculate_reward}
use gny.Interfaces.{
  Transaction, Block, BlockPropose, NewBlockMessage, KeyPair, Result, ok, err, ◌>>=◌, ◌>>◌,
  throw_if,
}
use gny.Base.Platform.{Platform}
use gny.Base.TransactionBase
use gny.Base.BlockBase
use gny.Base.Consensus.{create_propose}
use gny.Core.State.{State, LastBlock, last_height, last_id, last_timestamp, marked}

-- `getFeesOfAll(transactions)`
sum_fees : ℕ → List Transaction → ℕ
sum_fees prev [] = prev
sum_fees prev (one ∷ rest) = sum_fees (prev + one.fee) rest

unfoldable pub get_fees_of_all : List Transaction → ℕ
unfolding sum_fees
get_fees_of_all transactions = sum_fees 0 transactions

-- `AreTransactionsDuplicated(transactions)`: the loop, with the ids seen so far.
duplicated : List String → List Transaction → Bool
duplicated applied [] = false
duplicated applied (one ∷ rest) =
    let later = duplicated (one.id ∷ applied) rest in
    if contains applied one.id then true else later

unfoldable pub are_transactions_duplicated : List Transaction → Bool
unfolding duplicated
are_transactions_duplicated transactions = duplicated [] transactions

module _ (p : Platform) where
  abbrev pub bytes_of : Transaction → List ℕ
  bytes_of t = TransactionBase.get_bytes p t false false

  -- `areTransactionsExceedingPayloadLength(transactions)`: the loop, with the length so far.
  exceeds : ℕ → List Transaction → Bool
  exceeds payload_length [] = false
  exceeds payload_length (one ∷ rest) =
      let size = payload_length + length (bytes_of one) in
      let later = exceeds size rest in if ltb max_payload_length size then true else later

  unfoldable pub are_transactions_exceeding_payload_length : List Transaction → Bool
  unfolding exceeds
  are_transactions_exceeding_payload_length transactions = exceeds 0 transactions

  -- `payloadHashOfAllTransactions(transactions)`: the hash of the bytes one behind the other.
  abbrev pub payload_hash_of_all_transactions : List Transaction → List ℕ
  payload_hash_of_all_transactions transactions = p.sha256 (concat (map bytes_of transactions))

  -- `generateBlockShort(keypair, timestamp, lastBlock, unconfirmedTransactions)`
  unfoldable pub generate_block_short : KeyPair → ℕ → Block → List Transaction → Result Block
  generate_block_short keypair timestamp last_block unconfirmed = do
    throw_if (are_transactions_exceeding_payload_length unconfirmed) "Playload length outof range"
    let height = last_block.height + 1
    let block : Block = record {
      id = "";
      height = height;
      version = 0;
      timestamp = timestamp;
      prev_block_id = some last_block.id;
      count = length unconfirmed;
      fees = get_fees_of_all unconfirmed;
      reward = calculate_reward (pos height);
      payload_hash = p.to_hex (payload_hash_of_all_transactions unconfirmed);
      delegate = p.to_hex keypair.public_key;
      signature = none;
      transactions = map (λ t. TransactionBase.turn_into_full_transaction t height) unconfirmed;
    }
    let signed : Block = record block { signature = some (BlockBase.sign_block p block keypair) }
    ok (record signed { id = BlockBase.get_id p signed })

  -- `ManageProposeCreation(keypair, block, config)`, with the two settings.
  pub manage_propose_creation :
      KeyPair → Block → Option String → Option String → Result BlockPropose
  manage_propose_creation keypair block none port =
      err "config.publicIp and config.peerPort is mandatory"
  manage_propose_creation keypair block (some ip) none =
      err "config.publicIp and config.peerPort is mandatory"
  manage_propose_creation keypair block (some ip) (some port) =
      elim (create_propose p keypair block (String.◌++◌ ip (String.◌++◌ ":" port))) [
        | ok propose ↦ ok propose
        | err _ ↦ err "Failed to create propose"
      ]

-- `DoesNewBlockProposeMatchOldOne(state, propose)`
unfoldable pub does_new_block_propose_match_old_one : State → BlockPropose → Bool
does_new_block_propose_match_old_one s propose = elim s.last_propose [
  | none ↦ false
  | some last ↦
      last.height == propose.height
      && last.generator_public_key == propose.generator_public_key
      && not (last.id == propose.id)
]

-- `AlreadyReceivedPropose`, `MarkProposeAsReceived`, `AlreadyReceivedThisBlock`, `MarkBlockAsReceived`
abbrev pub already_received_propose : State → BlockPropose → Bool
already_received_propose s propose = marked propose.hash s.propose_cache

abbrev pub mark_propose_as_received : State → BlockPropose → State
mark_propose_as_received s propose = record s {
  propose_cache = insert propose.hash true s.propose_cache;
}

abbrev pub already_received_this_block : State → Block → Bool
already_received_this_block s block = marked block.id s.block_cache

abbrev pub mark_block_as_received : State → Block → State
mark_block_as_received s block = record s { block_cache = insert block.id true s.block_cache }

-- `ReceivedBlockIsInRightOrder(state, block)`
unfoldable pub received_block_is_in_right_order : State → Block → Result Bool
received_block_is_in_right_order s block = do
  height ← last_height s.last_block
  id ← last_id s.last_block
  ok (block.prev_block_id == id && eqb_ℤ (height +ℤ pos 1) (pos block.height))

-- `IsNewBlockMessageAndBlockTheSame(newBlockMsg, block)`
pub is_new_block_message_and_block_the_same : Option NewBlockMessage → Option Block → Bool
is_new_block_message_and_block_the_same none block = false
is_new_block_message_and_block_the_same (some m) none = false
is_new_block_message_and_block_the_same (some m) (some b) =
    m.height == b.height && m.id == b.id && m.prev_block_id == b.prev_block_id

-- `BlockMessageFitInLineResult`
pub data FitInLine : Type 0 where
  success long_fork sync_blocks : FitInLine

-- `DoesTheNewBlockFitInLine(state, newBlock)`
unfoldable pub does_the_new_block_fit_in_line : State → Block → Result FitInLine
does_the_new_block_fit_in_line s new_block = do
  height ← last_height s.last_block
  id ← last_id s.last_block
  ok (
      if not (eqb_ℤ (pos new_block.height) (height +ℤ pos 1)) || not (new_block.prev_block_id == id)
      then if ltb_ℤ (height +ℤ pos 5) (pos new_block.height)
        then FitInLine.long_fork
        else FitInLine.sync_blocks
      else FitInLine.success)

-- `getSlotNumber(lastBlock.timestamp)`: without an argument it is the slot of the clock.
abbrev slot_of : ℕ → Option ℕ → ℤ
slot_of now none = get_slot_number (get_epoch_time now)
slot_of now (some timestamp) = get_slot_number (pos timestamp)

-- `IsBlockchainReady(state, currentMilliSeconds)`
unfoldable pub is_blockchain_ready : State → ℕ → Result Bool
is_blockchain_ready s now = do
  timestamp ← last_timestamp s.last_block
  let next_slot = get_slot_number (get_epoch_time now) +ℤ pos 1
  ok (not (leb_ℤ (pos 12) (next_slot -ℤ slot_of now timestamp)))

-- `SetLastBlock`, `ProcessBlockCleanup`, `setPreGenesisBlock`, `SetLastPropose`
abbrev pub set_last_block : State → Block → State
set_last_block s block = record s { last_block = LastBlock.known block }

abbrev pub process_block_cleanup : State → State
process_block_cleanup s = record s {
  block_cache = [];
  propose_cache = [];
  last_vote_time = none;
  priv_is_collecting_votes = false;
}

abbrev pub set_pre_genesis_block : State → State
set_pre_genesis_block s = record s { last_block = LastBlock.pre_genesis }

abbrev pub set_last_propose : State → ℕ → BlockPropose → State
set_last_propose s vote_time propose = record s {
  last_vote_time = some vote_time;
  last_propose = some propose;
}

-- `verifyBlockSlot(state, currentMilliSeconds, block)`
unfoldable pub verify_block_slot : State → ℕ → Block → Result Bool
verify_block_slot s now block = do
  timestamp ← last_timestamp s.last_block
  let block_slot = get_slot_number (pos block.timestamp)
  let next_slot = get_slot_number (get_epoch_time now) +ℤ pos 1
  ok (
      if ltb_ℤ next_slot block_slot
      then false
      else if leb_ℤ block_slot (slot_of now timestamp)
      then false
      else true)
