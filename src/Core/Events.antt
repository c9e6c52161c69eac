-- ===== src/Core/Events.antt =====
-- packages/main/src/core/blocks.ts: how a node makes a block, and what it does with proposes and votes from other
-- nodes. A handler runs in the sequence of the node on the whole state, so it is a function of it; the
-- messages that it sends are values beside the new state. Before the genesis block no block is generated.
use gny.Prelude.{
  ℕ, zero, suc, ◌+◌, ◌-◌, String, ap, Bool, true, false, not, ◌||◌, Option, none, some, List, [],
  ◌∷◌, arith, ltb, if◌then◌else◌, ◌==◌, nat_eq, string_eq, option_eq, is_some, length, set,
}
use gny.Prelude.Int.{ℤ, pos, ◌+ℤ◌, ◌-ℤ◌, ltb_ℤ, eqb_ℤ, int_eq}
use gny.Prelude.Map.{Map, has}
pub mod Propose
pub mod Voted
pub mod Confirmed
use gny.Interfaces.{
  Block, BlockPropose, KeyPair, ManyVotes, Options, Transaction, Result, ok, err, ◌>>=◌, ◌>>◌,
  throw_if, or_throw,
}
use gny.Pool.{TransactionPool, clear}
use gny.Base.Consensus.{create_votes, accept_propose, has_enough_votes}
use gny.Core.State.{LastBlock, State, last_height}
use gny.Core.BlocksHelper.{
  generate_block_short, manage_propose_creation, does_new_block_propose_match_old_one,
  already_received_propose, mark_propose_as_received, set_last_block, set_pre_genesis_block,
  set_last_propose,
}
use gny.Core.Votes.{add_pending_votes, set_pending_block, get_pending_block, collecting_votes}
use gny.Core.Delegates.{get_active_delegate_keypairs, validate_propose_slot, generate_delegate_list}
use gny.Core.Processing.{Chain, Node, process_block}

-- The settings and flags of the node beside its state.
pub record Settings : Type 0 where
  pub public_ip : Option String
  pub peer_port : Option String
  pub is_syncing : Bool
  pub key_pairs : Map String KeyPair
  pub send : ManyVotes → String → Result (Unit {0})

pub data Message : Type 0 where
  votes_sent : ManyVotes → String → Message
  propose_sent : BlockPropose → Message
  sync_started : Message

-- What the handlers share: the state, the database and the pool.
pub record Local : Type 0 where
  pub state : State
  pub chain : Chain
  pub pool : TransactionPool

abbrev pub delegate_list : Node → ℕ → Chain → List String
delegate_list n height chain =
    generate_delegate_list n.runtime.platform n.decimal height chain.books.bookkeeper

-- `StateHelper.IsSyncing() || !StateHelper.ModulesAreLoaded()`
abbrev pub is_busy : Node → Settings → Bool
is_busy n c = c.is_syncing || not n.modules_are_loaded

abbrev known_block : LastBlock → Result Block
known_block (LastBlock.known b) = ok b
known_block other = err "lastBlock is undefined"

pub record Generated : Type 0 where
  pub state : State
  pub block : Option (Block × ManyVotes)
  pub messages : List Message

-- The end of `generateBlock`: too few votes here, so the other nodes are asked.
abbrev pub proposed : Node → State → Block → ManyVotes → BlockPropose → Generated
proposed n s block votes propose = record {
  state = collecting_votes (
      mark_propose_as_received
        (add_pending_votes n.runtime.platform (set_pending_block s block) votes) propose);
  block = none;
  messages = propose_sent propose ∷ [];
}

abbrev pub decided : Node → Settings → State → KeyPair → Block → ManyVotes → Result Generated
decided n c s keypair block votes =
    if has_enough_votes (some votes)
    then ok (record { state = s; block = some (block, votes); messages = [] })
    else (throw_if (not (is_some c.public_ip)) "No public ip"
        >> throw_if (not (is_some c.peer_port)) "No peer port"
        >> manage_propose_creation n.runtime.platform keypair block c.public_ip c.peer_port
        >>= λ propose. ok (proposed n s block votes propose))

-- `generateBlock(state, activeDelegates, unconfirmedTransactions, keypair, timestamp)`
unfoldable pub generate_block :
    Node → Settings → State → List KeyPair → List Transaction → KeyPair → ℕ → Result Generated
generate_block n c s active unconfirmed keypair timestamp = known_block s.last_block >>= λ last.
    generate_block_short n.runtime.platform keypair timestamp last unconfirmed >>= λ block.
    throw_if (length active == 0) "not enough active delegates"
    >> decided n c s keypair block (create_votes n.runtime.platform active block.height block.id)

-- The height of a propose against the next height: whether it fits, and what is done if not.
abbrev pub fits_height : BlockPropose → LastBlock → Result (Bool × List Message)
fits_height propose last = last_height last >>= λ height. ok (
    if eqb_ℤ (pos propose.height) (height +ℤ pos 1)
    then (true, [])
    else (false, if ltb_ℤ (height +ℤ pos 1) (pos propose.height) then sync_started ∷ [] else []))

-- `state.lastVoteTime && Date.now() - state.lastVoteTime < 5 * 1000`
abbrev pub voted_lately : ℕ → Option ℕ → Bool
voted_lately now none = false
voted_lately now (some zero) = false
voted_lately now (some (suc t)) = ltb now (suc t + 5000)

-- The votes of the node, sent, and the state that is saved.
abbrev pub answered : Settings → ℕ → BlockPropose → State → State → ManyVotes → List Message × State
answered c now propose s old votes = elim (c.send votes propose.address) [
  | err message ↦ ([], old)
  | ok done ↦ (votes_sent votes propose.address ∷ [], set_last_propose s now propose)
]

-- The waterfall of `onReceivePropose`; an error in it leaves the old state.
abbrev pub consider :
    Node → Settings → ℕ → Chain → BlockPropose → State → State → List Message × State
consider n c now chain propose s old =
    let active = delegate_list n propose.height chain in
    let mine = get_active_delegate_keypairs active c.key_pairs in
    elim (validate_propose_slot propose active) [
      | err message ↦ ([], old)
      | ok done ↦
          if accept_propose n.runtime.platform propose
          then (if length mine == 0
              then ([], s)
              else answered c now propose s old
                  (create_votes n.runtime.platform mine propose.height propose.id))
          else ([], old)
    ]

-- The checks of `onReceivePropose` on the state in which the propose is marked
abbrev pub checked :
    Node → Settings → ℕ → Chain → BlockPropose → State → State → List Message × State
checked n c now chain propose s old =
    if does_new_block_propose_match_old_one s propose
    then ([], old)
    else elim (fits_height propose s.last_block) [
      | err message ↦ ([], old)
      | ok (false, messages) ↦ (messages, old)
      | ok (true, messages) ↦
          if voted_lately now s.last_vote_time
          then ([], old)
          else consider n c now chain propose s old
    ]

-- `onReceivePropose(propose)`
unfoldable pub on_receive_propose :
    Node → Settings → ℕ → Chain → BlockPropose → State → List Message × State
on_receive_propose n c now chain propose s =
    if is_busy n c || already_received_propose s propose
    then ([], s)
    else checked n c now chain propose (mark_propose_as_received s propose) s

-- The `try` of `onReceiveVotes`: an error is logged, and the old state stays.
abbrev pub confirmed_block : Node → State → Option Block → Local → Local
confirmed_block n s none d = d
confirmed_block n s (some block) d =
    elim (process_block n s block
      (record { is_local = true; broadcast = true; votes = s.pending_votes })
      (delegate_list n block.height d.chain) d.chain) [
        | err message ↦ d
        | ok (s', chain) ↦ record d { state = s'; chain = chain }
      ]

-- `onReceiveVotes(votes)`
unfoldable pub on_receive_votes : Node → Settings → ManyVotes → Local → Local
on_receive_votes n c votes d =
    let s = add_pending_votes n.runtime.platform d.state votes in
    if is_busy n c
    then d
    else if has_enough_votes s.pending_votes
    then confirmed_block n s (get_pending_block s) (record d { pool = clear d.pool })
    else record d { state = s }

-- `RunGenesisOrLoadLastBlock(state, numberOfBlocksInDb, genesisBlock, processBlock, getBlocksByHeight)`
unfoldable pub run_genesis_or_load_last_block :
    Node → ℕ → Block → (ℤ → Result Block) → State → Chain → Result (State × Chain)
run_genesis_or_load_last_block n count genesis get_block s chain =
    if count == 0
    then process_block n (set_pre_genesis_block s) genesis
        (record { is_local = false; broadcast = false; votes = none }) [] chain
    else get_block (pos count -ℤ pos 1) >>= λ block. ok (set_last_block s block, chain)
