-- ===== src/Utils/Reward.antt =====
-- packages/utils/src/block-reward.ts, `class BlockReward`. A height is an integer; what is no integer
-- is refused by `checkType`, and so has no value here.
use gny.Prelude.{
  ℕ, zero, suc, ◌+◌, ◌-◌, ◌*◌, ◌/◌, ◌%◌, ◌&&◌, Option, none, some, List, [], ◌∷◌, arith, ltb, leb,
  if◌then◌else◌, ◌==◌, nat_eq, string_eq, length, get_elem?, set,
}
use gny.Prelude.Int.{ℤ, abs}
pub mod Supply
use gny.Utils.Constants.{milestones, offset, distance, initial_amount}

-- `checkType`, on an integer.
abbrev check_type : ℤ → ℕ
check_type height = abs height

-- `calculateMilestone`: `location` is `(height - offset) / distance`, rounded towards zero.
pub calculate_milestone : ℤ → ℕ
calculate_milestone height =
    let h = check_type height in
    if ltb h offset
    then (offset - h) / distance
    else let location = (h - offset) / distance in
      if ltb (length milestones - 1) location then length milestones - 1 else location

abbrev or_zero : Option ℕ → ℕ
or_zero none = 0
or_zero (some n) = n

-- `calculateReward`
unfoldable pub calculate_reward : ℤ → ℕ
calculate_reward height =
    if ltb (check_type height) offset
    then 0
    else or_zero (get_elem? milestones (calculate_milestone height))

-- The first loop of `calculateSupply`, from index i on: amounts of blocks with their rewards.
unfoldable pub collect_rewards : ℕ → ℕ → ℕ → List ℕ → List (ℕ × ℕ)
collect_rewards milestone i height [] = []
collect_rewards milestone i height (multiplier ∷ rest) =
    let short = ltb height distance in
    let left = if short then height else height - distance in
    let amount =
      if short
      then height % distance
      else if ltb 0 left && i == length milestones - 1
      then left + distance
      else distance in
    let others = collect_rewards milestone (i + 1) left rest in
    if leb i milestone then (amount, multiplier) ∷ others else []

-- The second loop of `calculateSupply`.
unfoldable pub add_rewards : ℕ → List (ℕ × ℕ) → ℕ
add_rewards supply [] = supply
add_rewards supply ((amount, multiplier) ∷ rest) = add_rewards (supply + amount * multiplier) rest

-- `calculateSupply`
unfoldable pub calculate_supply : ℤ → ℕ
unfolding collect_rewards add_rewards
calculate_supply height =
    let h = check_type height in
    if ltb h offset
    then initial_amount
    else add_rewards initial_amount
        (collect_rewards (calculate_milestone height) 0 (h - offset + 1) milestones)
