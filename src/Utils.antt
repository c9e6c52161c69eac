-- ===== src/Utils.antt =====
-- packages/utils: constants, slots, rewards, fees and the bounded cache.
pub mod Constants
pub mod Slots
pub mod Reward
pub mod LimitCache
