-- ===== src/Core/State.antt =====
-- packages/main/src/globalInterfaces.ts and core/StateHelper.ts: the consensus state. `copyState` is a deep
-- copy, so each helper is a function from the old state to the new one.
use gny.Prelude.{ℕ, String, Bool, false, Option, none, some, [], nat_eq, string_eq, option_eq}
use gny.Prelude.Int.{ℤ, pos, negsuc, int_eq}
use gny.Prelude.Map.{Map, lookup}
use gny.Interfaces.{Block, BlockPropose, ManyVotes, Result, ok, err}

-- `state.lastBlock`: not set yet, `{ height: "-1" }` before the genesis block, or a block.
pub data LastBlock : Type 0 where
  missing : LastBlock
  pre_genesis : LastBlock
  known : Block → LastBlock

-- `IState`
pub record State : Type 0 where
  pub votes_key_set : Map String Bool
  pub pending_block : Option Block
  pub pending_votes : Option ManyVotes
  pub last_block : LastBlock
  pub block_cache : Map String Bool
  pub propose_cache : Map String Bool
  pub last_propose : Option BlockPropose
  pub priv_is_collecting_votes : Bool
  pub last_vote_time : Option ℕ

-- `getInitialState()`
abbrev pub initial_state : State
initial_state = record {
  votes_key_set = [];
  pending_block = none;
  pending_votes = none;
  last_block = LastBlock.missing;
  block_cache = [];
  propose_cache = [];
  last_propose = none;
  priv_is_collecting_votes = false;
  last_vote_time = none;
}

-- `lastBlock.height`; reading a field of `undefined` throws.
abbrev pub last_height : LastBlock → Result ℤ
last_height LastBlock.missing = err "lastBlock is undefined"
last_height LastBlock.pre_genesis = ok (negsuc 0)
last_height (LastBlock.known b) = ok (pos b.height)

-- `lastBlock.id`, which is undefined before the genesis block.
abbrev pub last_id : LastBlock → Result (Option String)
last_id LastBlock.missing = err "lastBlock is undefined"
last_id LastBlock.pre_genesis = ok none
last_id (LastBlock.known b) = ok (some b.id)

-- `lastBlock.timestamp`
abbrev pub last_timestamp : LastBlock → Result (Option ℕ)
last_timestamp LastBlock.missing = err "lastBlock is undefined"
last_timestamp LastBlock.pre_genesis = ok none
last_timestamp (LastBlock.known b) = ok (some b.timestamp)

-- Whether an object used as a set has a key with a true value.
abbrev pub marked : String → Map String Bool → Bool
marked key cache = elim (lookup key cache) [ none ↦ false | some value ↦ value ]
