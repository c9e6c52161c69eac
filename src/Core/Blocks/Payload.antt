-- ===== src/Core/Blocks/Payload.antt =====
-- What `verifyBlock` does not look at.
use gny.Prelude.{
  ℕ, ◌≤◌, String, ◌≡◌, refl, sym, ap, ◌∙◌, false, not, Option, none, some, List, arith, ◌==◌,
  nat_eq, string_eq, option_eq, length,
}
use gny.Prelude.Int.{pos, int_eq}
use gny.Utils.Reward.{calculate_reward}
use gny.Utils.Constants.{max_txs_per_block}
use gny.Interfaces.{
  ok_inj, Block, ManyVotes, Transaction, Result, ok, ◌>>◌, throw_if, bind_ok, guard_ok, bind_intro,
  guard_intro,
}
use gny.Base.Platform.{Platform}
use gny.Base.BlockBase.{get_id, get_bytes-transactions, verify_signature-transactions}
use gny.Core.State.{State}
use gny.Core.BlocksHelper.{get_fees_of_all, are_transactions_duplicated, verify_block_slot}
use gny.Core.Blocks.{check_header, check_transactions, check_votes, verify_block}

abbrev pub with_transactions : List Transaction → Block → Block
with_transactions ts b = record b { transactions = ts }

check_header-with_transactions :
    (p : Platform) (s : State) (now : ℕ) (b : Block) (ts : List Transaction)
    → check_header p s now (with_transactions ts b) ≡ check_header p s now b
unfolding verify_block_slot
check_header-with_transactions p s now b ts = rw (verify_signature-transactions p b ts) refl

check_votes-with_transactions :
    (p : Platform) (b : Block) (ts : List Transaction) (votes : Option ManyVotes)
    (delegates : List String)
    → check_votes p (with_transactions ts b) votes delegates ≡ check_votes p b votes delegates
check_votes-with_transactions p b ts none delegates = refl
check_votes-with_transactions p b ts (some votes) delegates = refl

named : Platform → Block → Block
named p b = record b { id = get_id p b }

named-with_transactions :
    (p : Platform) (b : Block) (ts : List Transaction)
    → named p (with_transactions ts b) ≡ with_transactions ts (named p b)
unfolding named
named-with_transactions p b ts =
    ap (λ bytes. record (with_transactions ts b) { id = p.to_hex (p.sha256 bytes) })
      (get_bytes-transactions p b ts)

-- The verification of a block that has its id.
checks : Platform → State → ℕ → Option ManyVotes → List String → Block → Result Block
checks p s now votes delegates b =
    check_header p s now b
    >> (check_transactions p b
        >> (throw_if (not (calculate_reward (pos b.height) == b.reward)) "Invalid block reward"
            >> (check_votes p b votes delegates >> ok b)))

allowed :
    (p : Platform) (b : Block) (ts : List Transaction)
    → length ts ≤ max_txs_per_block
    → length ts ≡ b.count
    → are_transactions_duplicated ts ≡ false
    → get_fees_of_all ts ≡ b.fees
    → check_transactions p (with_transactions ts (named p b)) ≡ ok tt
unfolding named
allowed p b ts few counted distinct fees = ground (arith, distinct)

checks-with_transactions :
    (p : Platform) (s : State) (now : ℕ) (votes : Option ManyVotes) (delegates : List String)
    (b b' : Block) (ts : List Transaction)
    → check_transactions p (with_transactions ts b) ≡ ok tt
    → checks p s now votes delegates b ≡ ok b'
    → checks p s now votes delegates (with_transactions ts b) ≡ ok (with_transactions ts b')
unfolding checks
checks-with_transactions p s now votes delegates b b' ts good h =
    let (unit, header, h1) = bind_ok (check_header p s now b) _ b' h in
    let (unit', transactions, h2) = bind_ok (check_transactions p b) _ b' h1 in
    let (reward, h3) =
      guard_ok (not (calculate_reward (pos b.height) == b.reward)) "Invalid block reward" _ b' h2 in
    let (unit'', voted, e) = bind_ok (check_votes p b votes delegates) _ b' h3 in
    let b1 = with_transactions ts b in
    bind_intro (check_header p s now b1) _ unit _
      (check_header-with_transactions p s now b ts ∙ header)
      (bind_intro (check_transactions p b1) _ tt _ good (
        guard_intro (not (calculate_reward (pos b.height) == b.reward)) "Invalid block reward" _ _
          reward
          (bind_intro (check_votes p b1 votes delegates) _ unit'' _
            (check_votes-with_transactions p b ts votes delegates ∙ voted)
            (ap ok (ap (with_transactions ts) {x = b} {y = b'} (ok_inj e))))))

verify_block-checks :
    (p : Platform) (s : State) (now : ℕ) (b : Block) (votes : Option ManyVotes)
    (delegates : List String)
    → verify_block p s now b votes delegates ≡ checks p s now votes delegates (named p b)
unfolding verify_block checks named
verify_block-checks p s now b votes delegates = refl

-- `verifyBlock` never compares the payload hash with the transactions: where it accepts a block, it accepts
-- the block with any other transactions too, if they have distinct ids, the block's count and fees, and
-- are not too many. The id, the signature and the payload hash stay those of the block.
pub verify_block_ignores_payload :
    (p : Platform) (s : State) (now : ℕ) (b b' : Block) (votes : Option ManyVotes)
    (delegates : List String) (ts : List Transaction)
    → verify_block p s now b votes delegates ≡ ok b'
    → length ts ≤ max_txs_per_block
    → length ts ≡ b.count
    → are_transactions_duplicated ts ≡ false
    → get_fees_of_all ts ≡ b.fees
    → verify_block p s now (with_transactions ts b) votes delegates ≡ ok (with_transactions ts b')
verify_block_ignores_payload p s now b b' votes delegates ts h few counted distinct fees =
    verify_block-checks p s now (with_transactions ts b) votes delegates
    ∙ ap (checks p s now votes delegates) (named-with_transactions p b ts)
    ∙ checks-with_transactions p s now votes delegates (named p b) b' ts
        (allowed p b ts few counted distinct fees)
        (sym (verify_block-checks p s now b votes delegates) ∙ h)
