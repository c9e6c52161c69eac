-- ===== src/Core/Events/Confirmed.antt =====
-- packages/main/src/core/blocks.ts, `onReceiveVotes`: the pending block is processed once it has enough votes.
use gny.Prelude.{◌≡◌, ◌⊎◌, true, some, nat_eq, string_eq, option_eq}
use gny.Prelude.Int.{int_eq}
use gny.Interfaces.{Block, ManyVotes}
use gny.Pool.{clear}
use gny.Base.Consensus.{has_enough_votes}
use gny.Core.State.{State}
use gny.Core.Votes.{add_pending_votes}
use gny.Core.Processing.{Node}
use gny.Core.Processing.Atomic.{Clean, Saved, Unchanged}
use gny.Core.Events.{Settings, Local}

module _ (n : Node) (c : Settings) (votes : ManyVotes) (d : Local) where
  -- The state with the votes counted.
  abbrev pub counted : State
  counted = add_pending_votes n.runtime.platform d.state votes

  -- The pending block was processed, and all votes are forgotten.
  pub record IsProcessed (r : Local) : Type 0 where
    pub enough : has_enough_votes counted.pending_votes ≡ true
    pub pending : Block
    pub is_pending : counted.pending_block ≡ some pending
    pub pool : r.pool ≡ clear d.pool
    pub clean : Clean r.state
    pub whole :
        Saved n counted
          (record { is_local = true; broadcast = true; votes = counted.pending_votes })
          d.chain
          pending
          r.state
          r.chain
        ⊎ Unchanged counted d.chain r.state r.chain
