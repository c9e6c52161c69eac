-- ===== src/Core/Processing.antt =====
-- packages/main/src/core/blocks.ts, `processBlock` and what it calls: a block is checked, executed inside
-- a database block, and becomes the last one. Joi's `normalizeBlock` is a parameter. Messages to other
-- modules are left out.
use gny.Prelude.{
  ℕ, zero, suc, ◌+◌, String, ap, Bool, false, not, ◌&&◌, ◌||◌, Option, List, [], ◌∷◌, ◌++◌, map,
  arith, ltb, leb, if◌then◌else◌, ◌==◌, nat_eq, string_eq, option_eq, length, set, contains,
}
use gny.Prelude.Int.{int_eq}
use gny.Prelude.Map.{has}
pub mod Atomic
use gny.Interfaces.{Block, Options, Transaction, Result, ok, err, ◌>>=◌, ◌>>◌, throw_if}
use gny.Contract.Ledger.{Tables, filter}
use gny.Core.State.{State}
use gny.Core.BlocksHelper.{are_transactions_duplicated, set_last_block, process_block_cleanup}
use gny.Core.Votes.{clear_state}
use gny.Core.Blocks.{verify_block}
use gny.Core.Delegates.{validate_block_slot}
use gny.Core.Rounds.{Books, apply_round}
use gny.Core.Transactions.{Runtime, apply_unconfirmed_transaction}

-- What the database holds, and the rows of the session, which the transactions of the pool have changed
-- already. The blocks have the heights from 0 on, so their number is the next height.
pub record Chain : Type 0 where
  pub books : Books
  pub session : Tables
  pub blocks : List Block
  pub transactions : List Transaction

-- The parameters of a node.
pub record Node : Type 0 where
  pub runtime : Runtime
  pub decimal : ℕ → String
  pub normalize_block : Block → Result Block
  pub modules_are_loaded : Bool

-- The loop of `applyBlock`.
unfoldable apply_all : Runtime → State → List Transaction → Tables → Result Tables
apply_all r s [] db = ok db
apply_all r s (t ∷ ts) db = apply_unconfirmed_transaction r s t db >>= λ db'. apply_all r s ts db'

-- `applyBlock(state, block)`
unfoldable pub apply_block : Runtime → State → Block → Tables → Result Tables
unfolding apply_all
apply_block r s block db =
    throw_if (are_transactions_duplicated block.transactions) "Duplicate transaction in block"
    >> apply_all r s block.transactions db

-- `CheckBlockEffect(block, options)`
abbrev pub check_block_effect : Node → Block → Options → Result Block
check_block_effect n block options = if options.is_local then ok block else n.normalize_block block

-- `CheckBlock(state, block, options, delegateList)`, which names the block that it verifies.
abbrev pub check_block : Node → State → Block → Options → List String → Result Block
check_block n s block options delegates =
    if options.is_local
    then ok block
    else (verify_block n.runtime.platform s n.runtime.now block options.votes delegates >>= λ named.
        (if named.height == 0 then ok tt else validate_block_slot named delegates) >> ok named)

abbrev pub has_block : String → List Block → Bool
has_block id [] = false
has_block id (b ∷ blocks) = b.id == id || has_block id blocks

abbrev pub any_saved : List Transaction → List Transaction → Bool
any_saved saved [] = false
any_saved saved (t ∷ ts) = contains (map (λ u. u.id) saved) t.id || any_saved saved ts

-- `CheckBlockWithDbAccessIO(block, options)`
abbrev pub check_block_with_db : Block → Options → Chain → Result (Unit {0})
check_block_with_db block options chain =
    if options.is_local
    then ok tt
    else (throw_if (not (block.height == 0) && has_block block.id chain.blocks)
          "Block already exists"
        >> throw_if (any_saved chain.transactions block.transactions)
            "Block contain already confirmed transaction")

-- `getBlocksByHeightRange(height - 100, height - 1)`, as the forgers.
abbrev pub forged_before : ℕ → List Block → List String
forged_before height blocks =
    map (λ b. b.delegate) (filter (λ b. leb height (b.height + 100) && ltb b.height height) blocks)

-- The `try` of `ProcessBlockDbIO`: transactions, round, and commit.
unfoldable pub execute_block : Node → State → Block → Options → Chain → Result Chain
execute_block n s block options chain =
    (if options.is_local then ok chain.session else apply_block n.runtime s block chain.session)
    >>= λ db.
        apply_round n.runtime.platform n.decimal block (forged_before block.height chain.blocks)
          (record chain.books { tables = db })
        >>= λ books. ok (record {
          books = books;
          session = books.tables;
          blocks = chain.blocks ++ block ∷ [];
          transactions = chain.transactions ++ block.transactions;
        })

-- `rollbackBlock()`: the session has the saved rows again.
abbrev pub rollback_block : Chain → Chain
rollback_block chain = record chain { session = chain.books.tables }

abbrev pub settle_block : Block → Chain → Result Chain → Result Block × Chain
settle_block block chain (ok chain') = (ok block, chain')
settle_block block chain (err message) = (err message, rollback_block chain)

-- `ProcessBlockDbIO(state, block, options)`; `beginBlock`, which stands before the `try`, wants the next
-- height.
unfoldable pub process_block_db : Node → State → Block → Options → Chain → Result Block × Chain
process_block_db n s block options chain =
    if not (block.height == length chain.blocks)
    then (err "invalid block height", chain)
    else settle_block block chain (execute_block n s block options chain)

-- The checks of `processBlock`, which leave the database alone.
unfoldable pub check_all : Node → State → Block → Options → List String → Chain → Result Block
check_all n s block options delegates chain = check_block_effect n block options >>= λ normal.
    check_block n s normal options delegates >>= λ named.
    check_block_with_db named options chain >> ok named

abbrev pub attempt : Node → State → Options → Chain → Result Block → Result Block × Chain
attempt n s options chain (ok block) = process_block_db n s block options chain
attempt n s options chain (err message) = (err message, chain)

-- `ProcessBlockCleanupEffect(state)`
abbrev pub process_block_cleanup_effect : State → State
process_block_cleanup_effect s = clear_state (process_block_cleanup s)

abbrev pub conclude : State → Result Block × Chain → State × Chain
conclude s (ok block, chain) = (process_block_cleanup_effect (set_last_block s block), chain)
conclude s (err message, chain) = (process_block_cleanup_effect s, chain)

-- `processBlock(state, block, options, delegateList)`
unfoldable pub process_block :
    Node → State → Block → Options → List String → Chain → Result (State × Chain)
process_block n s block options delegates chain =
    throw_if (not n.modules_are_loaded) "Blockchain is loading"
    >> ok (conclude s (attempt n s options chain (check_all n s block options delegates chain)))
