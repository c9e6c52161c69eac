-- ===== src/Core/Delegates.antt =====
-- packages/main/src/core/delegates.ts, `class Delegates`: whose turn it is. The clock, the key pairs of
-- the node and the stored list of the round are arguments.
use gny.Prelude.{
  ℕ, zero, suc, ◌+◌, ◌-◌, ◌/◌, ◌%◌, String, ap, Bool, not, ◌||◌, Option, none, some, List, [], ◌∷◌,
  arith, ltb, if◌then◌else◌, ◌==◌, nat_eq, string_eq, option_eq, option_beq, length, get_elem?, set,
  contains,
}
use gny.Prelude.Int.{ℤ, pos, eqb_ℤ, int_eq}
use gny.Prelude.Map.{Map, lookup, insert}
pub mod Slot
pub mod Shuffle
use gny.Utils.Constants.{delegates_count, interval}
use gny.Utils.Slots.{get_slot_number, get_slot_time, get_last_slot, get_epoch_time, calculate_round}
use gny.Interfaces.{Block, BlockPropose, KeyPair, Result, ok, err, ◌>>=◌}
use gny.Base.Platform.{Platform}
use gny.Core.State.{State, last_timestamp}

-- The key pair for the delegate whose turn a slot is, if the node has it.
abbrev key_pair_at : List String → Map String KeyPair → ℕ → Option KeyPair
key_pair_at active key_pairs slot = elim (get_elem? active (slot % delegates_count)) [
  | none ↦ none
  | some key ↦ lookup key key_pairs
]

-- The loop of `getBlockSlotData`, with the slots left to try.
find_slot : ℕ → ℕ → List String → Map String KeyPair → Option (ℕ × KeyPair)
find_slot zero slot active key_pairs = none
find_slot (suc rounds) slot active key_pairs =
    let later = find_slot rounds (slot + 1) active key_pairs in
    elim (key_pair_at active key_pairs slot) [
      | none ↦ later
      | some keypair ↦ some (get_slot_time slot, keypair)
    ]

-- `getBlockSlotData(slot, activeDelegates, keyPairs)`
unfoldable pub get_block_slot_data : ℕ → List String → Map String KeyPair → Option (ℕ × KeyPair)
unfolding find_slot
get_block_slot_data slot [] key_pairs = none
get_block_slot_data slot (key ∷ active) key_pairs =
    find_slot (get_last_slot slot - slot) slot (key ∷ active) key_pairs

-- `isLoopReady`: the reason not to forge, if there is one.
unfoldable pub is_loop_ready :
    State → ℕ → Bool → Bool → Bool → Map String KeyPair → Result (Option String)
is_loop_ready s now is_forging_enabled is_loaded is_syncing key_pairs =
    if not is_forging_enabled
    then ok (some "Loop: forging disabled")
    else if length key_pairs == 0
    then ok (some "Loop: no delegates")
    else if not is_loaded || is_syncing
    then ok (some "Loop: node not ready")
    else (last_timestamp s.last_block >>= λ timestamp.
        let current = get_slot_number (get_epoch_time now) in
        let last : ℤ = elim timestamp [ none ↦ current | some t ↦ get_slot_number (pos t) ] in
        ok (
          if eqb_ℤ current last
          then some "Loop: still in last Block slot"
          else if ltb 5000 (now % 10000)
          then some "Loop: maybe too late to collect votes"
          else none))

-- `loadMyDelegates(secrets, delegates)`: the key pairs whose public key is a delegate's.
load_from : Platform → List String → List String → Map String KeyPair → Map String KeyPair
load_from p [] delegates key_pairs = key_pairs
load_from p (secret ∷ secrets) delegates key_pairs =
    let keypair = p.seed_key_pair (p.sha256 (p.utf8 secret)) in
    let public_key = p.to_hex keypair.public_key in
    load_from p secrets delegates
      (if contains delegates public_key then insert public_key keypair key_pairs else key_pairs)

unfoldable pub load_my_delegates : Platform → List String → List String → Map String KeyPair
unfolding load_from
load_my_delegates p secrets delegates = load_from p secrets delegates []

-- `getActiveDelegateKeypairs(delegates)`
unfoldable pub get_active_delegate_keypairs : List String → Map String KeyPair → List KeyPair
get_active_delegate_keypairs delegates [] = []
get_active_delegate_keypairs delegates ((key, keypair) ∷ rest) =
    let others = get_active_delegate_keypairs delegates rest in
    if contains delegates key then keypair ∷ others else others

abbrev delegate_at : ℕ → List String → Option String
delegate_at timestamp active = get_elem? active (timestamp / interval % delegates_count)

-- `validateProposeSlot(propose, activeDelegates)`
unfoldable pub validate_propose_slot : BlockPropose → List String → Result (Unit {0})
validate_propose_slot propose active =
    if option_beq (delegate_at propose.timestamp active) (some propose.generator_public_key)
    then ok tt
    else err "Failed to validate propose slot"

-- `validateBlockSlot(block, activeDelegates)`
unfoldable pub validate_block_slot : Block → List String → Result (Unit {0})
validate_block_slot block active =
    if option_beq (delegate_at block.timestamp active) (some block.delegate)
    then ok tt
    else err "Failed to verify slot"

-- A swap of two places; the source's indices are always in range.
unfoldable pub swap : {A : Type 0} → List A → ℕ → ℕ → List A
swap xs i j = elim (get_elem? xs i) [
  | none ↦ xs
  | some b ↦ elim (get_elem? xs j) [ none ↦ xs | some a ↦ set (set xs i a) j b ]
]

abbrev pub byte : List ℕ → ℕ → ℕ
byte seed x = elim (get_elem? seed x) [ none ↦ 0 | some n ↦ n ]

-- The inner loop of `generateDelegateList`, with the rounds left: the index and the list behind it.
unfoldable pub inner : ℕ → ℕ → ℕ → List ℕ → List String → ℕ × List String
inner zero x i seed xs = (i, xs)
inner (suc rounds) x i seed xs =
    let later = inner rounds (x + 1) (i + 1) seed (swap xs (byte seed x % length xs) i) in
    if ltb i (length xs) then later else (i, xs)

-- The outer loop, with fuel; the index goes on by one more between two runs of the inner loop.
unfoldable pub outer : Platform → ℕ → ℕ → List ℕ → List String → List String
outer p zero i seed xs = xs
outer p (suc fuel) i seed xs =
    let (i', xs') = inner 4 0 i seed xs in
    let later = outer p fuel (i' + 1) (p.sha256 seed) xs' in if ltb i (length xs) then later else xs

-- `generateDelegateList(height)`; the seed is the decimal text of the round.
unfoldable pub generate_delegate_list : Platform → (ℕ → String) → ℕ → List String → List String
unfolding outer
generate_delegate_list p decimal height xs =
    outer p (length xs) 0 (p.sha256 (p.utf8 (decimal (calculate_round height)))) xs
