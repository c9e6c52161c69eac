-- ===== src/Core.antt =====
-- packages/main/src/core: the node's state, votes, block checks, delegates and rounds.
pub mod State
pub mod Votes
pub mod BlocksHelper
pub mod Delegates
pub mod Transactions
pub mod Blocks
pub mod Rounds
pub mod Processing
pub mod Events
