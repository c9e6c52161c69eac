-- ===== src/Core/Processing/Atomic.antt =====
-- A block is processed whole or not at all.
use gny.Prelude.{
  String, ◌≡◌, ◌⊎◌, true, false, none, List, [], ◌∷◌, ◌++◌, ◌==◌, nat_eq, string_eq, option_eq,
  length,
}
use gny.Prelude.Int.{int_eq}
use gny.Interfaces.{Block, Options, Transaction, Result, ok}
use gny.Core.State.{State, LastBlock}
use gny.Core.BlocksHelper.{are_transactions_duplicated}
use gny.Contract.Ledger.{Tables}
use gny.Core.Transactions.{Runtime, apply_unconfirmed_transaction}
use gny.Core.Blocks.{verify_block}
use gny.Core.Delegates.{validate_block_slot}
use gny.Core.Rounds.{apply_round}
use gny.Core.Processing.{
  Chain, Node, forged_before, check_block_effect, has_block, any_saved, rollback_block, conclude,
}

-- No vote is collected any more, and nothing is marked as received.
abbrev pub Clean : State → Type 0
Clean s =
    (s.pending_block ≡ none)
    × (s.pending_votes ≡ none)
    × (s.votes_key_set ≡ [])
    × (s.block_cache ≡ [])
    × (s.propose_cache ≡ [])
    × (s.priv_is_collecting_votes ≡ false)
    × (s.last_vote_time ≡ none)

-- A block from another node has passed every check before it is saved.
abbrev pub Checked : Node → State → Options → List String → Chain → Block → Block → Type 0
Checked n s options delegates chain normal block =
    (verify_block n.runtime.platform s n.runtime.now normal options.votes delegates ≡ ok block)
    × ((block.height == 0) ≡ false → validate_block_slot block delegates ≡ ok tt)
    × ((block.height == 0) ≡ false → has_block block.id chain.blocks ≡ false)
    × (any_saved chain.transactions block.transactions ≡ false)

-- A block that has passed the checks, from the one that was given; a node's own block passes as it is.
abbrev pub Passed : Node → State → Block → Options → List String → Chain → Block → Type 0
Passed n s given options delegates chain block =
    (normal : Block) × (check_block_effect n given options ≡ ok normal)
    × (options.is_local ≡ false → Checked n s options delegates chain normal block)
    × (options.is_local ≡ true → block ≡ given)

-- Transactions that were executed one after the other, each on the tables that the one before left.
pub data Ran (r : Runtime) (s : State) : List Transaction → Tables → Tables → Type 0 where
  nothing : {db : Tables} → Ran r s [] db db
  next_one :
      {t : Transaction} {ts : List Transaction} {db mid db' : Tables}
      → apply_unconfirmed_transaction r s t db ≡ ok mid
      → Ran r s ts mid db'
      → Ran r s (t ∷ ts) db db'

-- What is done with the transactions of a block: those of another node's block are executed; those of the node's
-- own block have been executed in the session already.
abbrev pub Executed : Node → State → Block → Options → Tables → Tables → Type 0
Executed n s block options session db =
    (options.is_local ≡ true → db ≡ session)
    × (options.is_local ≡ false
        → (are_transactions_duplicated block.transactions ≡ false)
          × Ran n.runtime s block.transactions session db)

-- The block was executed with all its transactions, its round was applied, and it was saved behind the others, at
-- the next height, and is the last one.
abbrev pub Saved : Node → State → Options → Chain → Block → State → Chain → Type 0
Saved n s options chain block s' chain' =
    ((db : Tables) × Executed n s block options chain.session db
      × (apply_round n.runtime.platform n.decimal block (forged_before block.height chain.blocks)
            (record chain.books { tables = db })
          ≡ ok chain'.books))
    × (s'.last_block ≡ LastBlock.known block)
    × (block.height ≡ length chain.blocks)
    × (chain'.blocks ≡ chain.blocks ++ block ∷ [])
    × (chain'.transactions ≡ chain.transactions ++ block.transactions)
    × (chain'.session ≡ chain'.books.tables)

-- Nothing was saved; the session is as it was or has the saved rows again.
abbrev pub Unchanged : State → Chain → State → Chain → Type 0
Unchanged s chain s' chain' =
    (s'.last_block ≡ s.last_block) × ((chain' ≡ chain) ⊎ (chain' ≡ rollback_block chain))

-- The two ends of an attempt to save a block.
abbrev Ended : Node → State → Options → Chain → Block → Result Block × Chain → Type 0
Ended n s options chain block outcome =
    let (s', chain') = conclude s outcome in
    Saved n s options chain block s' chain' ⊎ Unchanged s chain s' chain'
