-- ===== src/Utils/Slots.antt =====
-- packages/utils/src/slots.ts and packages/base/src/roundBase.ts: time in slots of ten seconds, and
-- heights in rounds of 101 blocks. Clock readings are milliseconds; an epoch time may be negative.
use gny.Prelude.{
  ℕ, suc, ◌+◌, ◌*◌, ◌/◌, ◌%◌, ◌≤◌, ◌<◌, ◌≡◌, arith, ltb, if◌then◌else◌, nat_eq, string_eq,
}
use gny.Prelude.Int.{ℤ, pos, negsuc, ◌+ℤ◌, ◌-ℤ◌, floor_div}
use gny.Utils.Constants.{epoch_time, interval, delegates_count}

-- `slots.getEpochTime(time)`
unfoldable pub get_epoch_time : ℕ → ℤ
get_epoch_time time = floor_div (pos time -ℤ pos epoch_time) 1000

-- `slots.getRealTime(epochTime)`
unfoldable pub get_real_time : ℤ → ℤ
get_real_time (pos n) = pos (epoch_time / 1000 * 1000 + n * 1000)
get_real_time (negsuc n) = pos (epoch_time / 1000 * 1000) -ℤ pos (suc n * 1000)

-- `slots.getSlotNumber(epochTime)`
abbrev pub get_slot_number : ℤ → ℤ
get_slot_number t = floor_div t interval

-- `slots.getSlotTime(slot)`
abbrev pub get_slot_time : ℕ → ℕ
get_slot_time slot = slot * interval

-- `slots.getNextSlot()`, with the clock as an argument.
unfoldable pub get_next_slot : ℕ → ℤ
unfolding get_epoch_time
get_next_slot now = get_slot_number (get_epoch_time now) +ℤ pos 1

-- `slots.getLastSlot(nextSlot)`
abbrev pub get_last_slot : ℕ → ℕ
get_last_slot next_slot = next_slot + delegates_count

-- `RoundBase.calculateRound(height)`
unfoldable pub calculate_round : ℕ → ℕ
calculate_round height =
    let second : ℕ = if ltb 0 (height % delegates_count) then 1 else 0 in
    height / delegates_count + second

-- A round is 101 consecutive heights: height h lies in round r exactly when
-- 101 * (r - 1) < h and h ≤ 101 * r, for every height above zero.
pub calculate_round_bounds :
    (height : ℕ)
    → (height ≤ 101 * calculate_round height) × (101 * calculate_round height < height + 101)
unfolding calculate_round
calculate_round_bounds height = ground arith

-- The real time of an epoch time is read back as that epoch time.
pub get_epoch_time-get_real_time :
    (t : ℤ) (time : ℕ) → get_real_time t ≡ pos time → get_epoch_time time ≡ t
unfolding get_epoch_time get_real_time ◌-ℤ◌
get_epoch_time-get_real_time (pos n) time h = ground arith
get_epoch_time-get_real_time (negsuc n) time h = ground arith

-- The time of a slot lies in that slot.
pub get_slot_number-get_slot_time :
    (slot : ℕ) → get_slot_number (pos (get_slot_time slot)) ≡ pos slot
get_slot_number-get_slot_time slot = ground arith
