-- ===== src/Tests/Utils.antt =====
-- The theorems on the utilities, at concrete data.
use gny.Prelude.{◌+◌, String, ◌≡◌, refl, inl, Bool, true, [], arith, nat_eq, string_eq, option_eq}
use gny.Prelude.Int.{pos, int_eq}
use gny.Prelude.Map.{lookup}
use gny.Prelude.{bool_eq}
use gny.Utils.Constants.{initial_amount}
use gny.Utils.Reward.{calculate_supply}
use gny.Utils.Reward.Supply.{total_reward, calculate_supply-eq-total_reward}
use gny.Utils.LimitCache.{LimitCache, new, set_entry}
use gny.Utils.LimitCache.Fifo.{IsFifo, new-IsFifo, fifo_add, set_entry_refines}

calculate_supply-eq-total_reward_example :
    calculate_supply (pos 2161) ≡ initial_amount + total_reward 2161
calculate_supply-eq-total_reward_example = calculate_supply-eq-total_reward 2161

abbrev small : LimitCache String Bool
small = new 2

set_entry_refines_example :
    IsFifo (set_entry "a" true small) × ((set_entry "a" true small).index ≡ fifo_add 2 "a" [])
set_entry_refines_example =
    set_entry_refines "a" true small (new-IsFifo 2 (omega arith)) (inl (unfold lookup in refl))
