-- ===== src/Utils/Reward/Supply.antt =====
-- `BlockReward.calculateSupply` is the sum of `calculateReward` over the heights.
use gny.Prelude.{
  ℕ, zero, suc, ◌+◌, ◌-◌, ◌*◌, ◌≤◌, ◌<◌, ◌≡◌, arith, ltb, if◌then◌else◌, nat_eq, string_eq,
}
use gny.Prelude.Int.{pos}
use gny.Utils.Constants.{offset, distance, initial_amount}
use gny.Utils.Reward.{calculate_milestone, calculate_reward, calculate_supply}

-- Milestone i covers the heights from offset + i * distance; the last one has no end.
milestone_range :
    (h i : ℕ)
    → i ≤ 3
    → offset + i * distance ≤ h
    → (i < 3 → h < offset + (i + 1) * distance)
    → calculate_milestone (pos h) ≡ i
unfolding calculate_milestone
milestone_range h i le above below = ground arith

reward_early : (h : ℕ) → h < offset → calculate_reward (pos h) ≡ 0
unfolding calculate_reward
reward_early h below = ground arith

reward_at :
    (h i : ℕ)
    → offset ≤ h
    → calculate_milestone (pos h) ≡ i
    → i ≤ 3
    → calculate_reward (pos h) ≡ 200000000 - i * 50000000
unfolding calculate_reward
reward_at h zero above e le = ground arith
reward_at h (suc zero) above e le = ground arith
reward_at h (suc (suc zero)) above e le = ground arith
reward_at h (suc (suc (suc i))) above e le = ground arith

supply_early : (h : ℕ) → h < offset → calculate_supply (pos h) ≡ initial_amount
unfolding calculate_supply
supply_early h below = ground arith

module _ (h : ℕ) (above : offset ≤ h) where
  supply_at_0 :
      calculate_milestone (pos h) ≡ 0
      → h < offset + distance
      → calculate_supply (pos h) ≡ initial_amount + (h - offset + 1) * 200000000
  unfolding calculate_supply
  supply_at_0 e below = rw (e, calculate_supply) (ground arith)

  supply_at_1 :
      calculate_milestone (pos h) ≡ 1
      → offset + distance ≤ h
      → h < offset + 2 * distance
      → calculate_supply (pos h)
        ≡ initial_amount + distance * 200000000 + (h - offset + 1 - distance) * 150000000
  unfolding calculate_supply
  supply_at_1 e from below = rw (e, calculate_supply) (ground arith)

  supply_at_2 :
      calculate_milestone (pos h) ≡ 2
      → offset + 2 * distance ≤ h
      → h < offset + 3 * distance
      → calculate_supply (pos h)
        ≡ initial_amount + distance * 350000000 + (h - offset + 1 - 2 * distance) * 100000000
  unfolding calculate_supply
  supply_at_2 e from below = rw (e, calculate_supply) (ground arith)

  supply_at_3 :
      calculate_milestone (pos h) ≡ 3
      → offset + 3 * distance ≤ h
      → calculate_supply (pos h)
        ≡ initial_amount + distance * 450000000 + (h - offset + 1 - 3 * distance) * 50000000
  unfolding calculate_supply
  supply_at_3 e from = rw (e, calculate_supply) (ground arith)

-- What the heights up to h have issued, by milestones.
closed_supply : ℕ → ℕ
closed_supply h =
    if ltb h offset
    then initial_amount
    else if ltb h (offset + distance)
    then initial_amount + (h - offset + 1) * 200000000
    else if ltb h (offset + 2 * distance)
    then initial_amount + distance * 200000000 + (h - offset + 1 - distance) * 150000000
    else if ltb h (offset + 3 * distance)
    then initial_amount + distance * 350000000 + (h - offset + 1 - 2 * distance) * 100000000
    else initial_amount + distance * 450000000 + (h - offset + 1 - 3 * distance) * 50000000

closed_reward : ℕ → ℕ
closed_reward h =
    if ltb h offset
    then 0
    else if ltb h (offset + distance)
    then 200000000
    else if ltb h (offset + 2 * distance)
    then 150000000
    else if ltb h (offset + 3 * distance)
    then 100000000
    else 50000000

supply-closed : (h : ℕ) → calculate_supply (pos h) ≡ closed_supply h
unfolding closed_supply
supply-closed h = ground (
  arith,
  supply_early h,
  supply_at_0 h,
  supply_at_1 h,
  supply_at_2 h,
  supply_at_3 h,
  milestone_range h 0,
  milestone_range h 1,
  milestone_range h 2,
  milestone_range h 3,
)

reward-closed : (h : ℕ) → calculate_reward (pos h) ≡ closed_reward h
unfolding closed_reward
reward-closed h = ground (
  arith,
  reward_early h,
  reward_at h 0,
  reward_at h 1,
  reward_at h 2,
  reward_at h 3,
  milestone_range h 0,
  milestone_range h 1,
  milestone_range h 2,
  milestone_range h 3,
)

closed_supply-suc : (h : ℕ) → closed_supply (suc h) ≡ closed_supply h + closed_reward (suc h)
unfolding closed_supply closed_reward
closed_supply-suc h = ground arith

-- One more block adds its reward to the supply.
calculate_supply-suc :
    (h : ℕ)
    → calculate_supply (pos (suc h)) ≡ calculate_supply (pos h) + calculate_reward (pos (suc h))
calculate_supply-suc h =
    omega
      (arith, supply-closed h, supply-closed (suc h), reward-closed (suc h), closed_supply-suc h)

-- The rewards of the blocks 1 to n.
pub total_reward : ℕ → ℕ
total_reward zero = 0
total_reward (suc n) = total_reward n + calculate_reward (pos (suc n))

-- At every height the supply, which is computed by milestones, is the initial amount together with
-- the rewards of all blocks from 1 up to that height.
pub calculate_supply-eq-total_reward :
    (h : ℕ) → calculate_supply (pos h) ≡ initial_amount + total_reward h
unfolding total_reward
calculate_supply-eq-total_reward zero = omega (arith, supply_early 0)
calculate_supply-eq-total_reward (suc h) =
    omega (arith, calculate_supply-suc h, calculate_supply-eq-total_reward h)
