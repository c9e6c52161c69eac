-- ===== src/Core/Blocks/Generated.antt =====
-- The blocks that a node generates pass its own verification.
use gny.Prelude.{
  ℕ, suc, ◌+◌, ◌≤◌, String, ◌≡◌, refl, sym, ap, ◌∙◌, ◌≢◌, true, false, not, ◌&&◌, none, some, List,
  [], ◌∷◌, map, arith, eq_iff, if◌then◌else◌, ◌==◌, nat_eq, string_eq, option_eq, option_beq,
  length, Distinct,
}
use gny.Prelude.Int.{pos, int_eq}
use mathlib.Core.Path.{subst}
use gny.Utils.Constants.{max_txs_per_block}
use gny.Utils.Reward.{calculate_reward}
use gny.Interfaces.{
  ok_inj, Block, KeyPair, Transaction, Result, ok, ◌>>◌, throw_if, guard_ok, bind_intro,
  guard_intro,
}
use gny.Base.Platform.{Platform, IsHex, IsKeyPair}
use gny.Base.TransactionBase.{turn_into_full_transaction}
use gny.Base.BlockBase.{
  get_id, sign_block, verify_signature, get_bytes-id, verify_signature-id, sign-verify_signature,
}
use gny.Core.State.{State, LastBlock, last_id}
use gny.Core.BlocksHelper.{
  get_fees_of_all, are_transactions_duplicated, are_transactions_exceeding_payload_length,
  verify_block_slot, payload_hash_of_all_transactions, generate_block_short,
}
use gny.Core.BlocksHelper.Checks.{
  ids, total_fees, get_fees_of_all-total_fees, are_transactions_duplicated_iff,
}
use gny.Core.Blocks.{check_header, check_transactions, no_previous, slot_fits, verify_block}

module _ (h : ℕ) where
  abbrev full : List Transaction → List Transaction
  full ts = map (λ t. turn_into_full_transaction t h) ts

  length-full : (ts : List Transaction) → length (full ts) ≡ length ts
  length-full [] = refl
  length-full (t ∷ ts) = ap suc (length-full ts)

  ids-full : (ts : List Transaction) → ids (full ts) ≡ ids ts
  ids-full [] = refl
  ids-full (t ∷ ts) = ap (λ rest. t.id ∷ rest) (ids-full ts)

  total_fees-full : (ts : List Transaction) → total_fees (full ts) ≡ total_fees ts
  total_fees-full [] = refl
  total_fees-full (t ∷ ts) = ap (λ n. t.fee + n) (total_fees-full ts)

  fees-full : (ts : List Transaction) → get_fees_of_all (full ts) ≡ get_fees_of_all ts
  fees-full ts =
      get_fees_of_all-total_fees (full ts)
      ∙ total_fees-full ts
      ∙ sym (get_fees_of_all-total_fees ts)

  duplicated-full :
      (ts : List Transaction) → Distinct (ids ts) → are_transactions_duplicated (full ts) ≡ false
  duplicated-full ts distinct = ground (
    arith,
    are_transactions_duplicated_iff (full ts),
    subst (λ xs. Distinct xs) (sym (ids-full ts)) distinct,
  )

-- The block of `generateBlockShort` before it is signed, signed, and with its id.
draft : Platform → KeyPair → ℕ → Block → List Transaction → Block
draft p keypair timestamp last ts = record {
  id = "";
  height = last.height + 1;
  version = 0;
  timestamp = timestamp;
  prev_block_id = some last.id;
  count = length ts;
  fees = get_fees_of_all ts;
  reward = calculate_reward (pos (last.height + 1));
  payload_hash = p.to_hex (payload_hash_of_all_transactions p ts);
  delegate = p.to_hex keypair.public_key;
  signature = none;
  transactions = full (last.height + 1) ts;
}

signed : Platform → KeyPair → Block → Block
signed p keypair b = record b { signature = some (sign_block p b keypair) }

finished : Platform → KeyPair → ℕ → Block → List Transaction → Block
finished p keypair timestamp last ts =
    let b = signed p keypair (draft p keypair timestamp last ts) in record b { id = get_id p b }

generate_block_short-finished :
    (p : Platform) (keypair : KeyPair) (timestamp : ℕ) (last b : Block) (ts : List Transaction)
    → generate_block_short p keypair timestamp last ts ≡ ok b
    → finished p keypair timestamp last ts ≡ b
unfolding generate_block_short finished signed draft
generate_block_short-finished p keypair timestamp last b ts h =
    let (short, e) =
      guard_ok (are_transactions_exceeding_payload_length p ts) "Playload length outof range" _ b
        h in
    ok_inj e

verify_signature-finished :
    (p : Platform) (keypair : KeyPair) (timestamp : ℕ) (last : Block) (ts : List Transaction)
    → IsHex p
    → IsKeyPair p keypair
    → verify_signature p (finished p keypair timestamp last ts) ≡ true
unfolding finished signed draft
verify_signature-finished p keypair timestamp last ts hex good =
    let d = draft p keypair timestamp last ts in
    verify_signature-id p (signed p keypair d) (get_id p (signed p keypair d))
    ∙ sign-verify_signature p d keypair hex good refl refl

-- Naming the finished block again changes nothing.
named-finished :
    (p : Platform) (keypair : KeyPair) (timestamp : ℕ) (last : Block) (ts : List Transaction)
    → let b = finished p keypair timestamp last ts in record b { id = get_id p b } ≡ b
unfolding finished
named-finished p keypair timestamp last ts =
    let b = signed p keypair (draft p keypair timestamp last ts) in
    ap (λ bytes. record b { id = p.to_hex (p.sha256 bytes) }) (get_bytes-id p b (get_id p b))

-- A header that is in order.
header_in_order :
    (p : Platform) (s : State) (now : ℕ) (b last : Block)
    → (b.height == 0) ≡ false
    → b.prev_block_id ≡ some last.id
    → last.id ≢ ""
    → verify_signature p b ≡ true
    → s.last_block ≡ LastBlock.known last
    → verify_block_slot s now b ≡ ok true
    → check_header p s now b ≡ ok tt
header_in_order p s now b last later previous nonempty verified known slot =
    let same : option_beq b.prev_block_id (some last.id) ≡ true =
      ap (λ o. option_beq o (some last.id)) previous ∙ (ground (arith, eq_iff last.id last.id)) in
    guard_intro (no_previous p b && not (b.height == 0)) "Previous block should not be null" _ _
      (ap (λ o. elim o [ none ↦ true | some id ↦ id == "" ] && not (b.height == 0)) previous
        ∙ ground (arith, eq_iff last.id "", nonempty))
      (guard_intro (not (verify_signature p b)) "Failed to verify block signature" _ _
        (ap not verified)
        (bind_intro (last_id s.last_block) _ (some last.id) _ (ap last_id known) (
          guard_intro (not (option_beq b.prev_block_id (some last.id)))
            "Incorrect previous block hash" _ _ (ap not same)
            (bind_intro (slot_fits p s now b) _ true _
              (ap (λ x. if x then ok true else verify_block_slot s now b) later ∙ slot) refl))))

transactions_in_order :
    (p : Platform) (keypair : KeyPair) (timestamp : ℕ) (last : Block) (ts : List Transaction)
    → length ts ≤ max_txs_per_block
    → Distinct (ids ts)
    → check_transactions p (finished p keypair timestamp last ts) ≡ ok tt
unfolding finished signed draft
transactions_in_order p keypair timestamp last ts few distinct =
    let height = last.height + 1 in
    ground (arith, length-full height ts, duplicated-full height ts distinct, fees-full height ts)

-- `verifyBlock` without votes, of a block that has its id.
checks : Platform → State → ℕ → Block → Result Block
checks p s now b =
    check_header p s now b
    >> (check_transactions p b
        >> (throw_if (not (calculate_reward (pos b.height) == b.reward)) "Invalid block reward"
            >> ok b))

reward_in_order :
    (p : Platform) (keypair : KeyPair) (timestamp : ℕ) (last : Block) (ts : List Transaction)
    → let b = finished p keypair timestamp last ts in
      (not (calculate_reward (pos b.height) == b.reward) ≡ false)
      × ((b.height == 0) ≡ false)
      × (b.prev_block_id ≡ some last.id)
unfolding finished signed draft
reward_in_order p keypair timestamp last ts = (ground arith, ground arith, refl)

verify_block-finished :
    (p : Platform) (s : State) (now : ℕ) (keypair : KeyPair) (timestamp : ℕ) (last : Block)
    (ts : List Transaction) (delegates : List String)
    → IsHex p
    → IsKeyPair p keypair
    → s.last_block ≡ LastBlock.known last
    → last.id ≢ ""
    → length ts ≤ max_txs_per_block
    → Distinct (ids ts)
    → verify_block_slot s now (finished p keypair timestamp last ts) ≡ ok true
    → verify_block p s now (finished p keypair timestamp last ts) none delegates
      ≡ ok (finished p keypair timestamp last ts)
unfolding verify_block checks
verify_block-finished p s now keypair timestamp last ts delegates hex good known nonempty few
      distinct slot =
    let b = finished p keypair timestamp last ts in
    let (reward, later, previous) = reward_in_order p keypair timestamp last ts in
    let verified = verify_signature-finished p keypair timestamp last ts hex good in
    ap (checks p s now) (named-finished p keypair timestamp last ts)
    ∙ bind_intro (check_header p s now b) _ tt _
        (header_in_order p s now b last later previous nonempty verified known slot)
        (bind_intro (check_transactions p b) _ tt _
          (transactions_in_order p keypair timestamp last ts few distinct)
          (guard_intro (not (calculate_reward (pos b.height) == b.reward)) "Invalid block reward" _
            _ reward refl))

-- A block that `generateBlockShort` makes on the last block of the state, in a slot that the state allows
-- and of transactions with distinct ids, not too many of them, is accepted unchanged by `verifyBlock`.
pub generate_block_short-verify_block :
    (p : Platform) (s : State) (now : ℕ) (keypair : KeyPair) (timestamp : ℕ) (last b : Block)
    (ts : List Transaction) (delegates : List String)
    → IsHex p
    → IsKeyPair p keypair
    → s.last_block ≡ LastBlock.known last
    → last.id ≢ ""
    → length ts ≤ max_txs_per_block
    → Distinct (ids ts)
    → verify_block_slot s now b ≡ ok true
    → generate_block_short p keypair timestamp last ts ≡ ok b
    → verify_block p s now b none delegates ≡ ok b
generate_block_short-verify_block p s now keypair timestamp last b ts delegates hex good known
      nonempty few distinct slot h =
    let made = generate_block_short-finished p keypair timestamp last b ts h in
    subst (λ x. verify_block_slot s now x ≡ ok true → verify_block p s now x none delegates ≡ ok x)
      made
      (verify_block-finished p s now keypair timestamp last ts delegates hex good known nonempty few
        distinct)
      slot
