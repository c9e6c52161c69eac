-- ===== src/Base.antt =====
-- packages/base/src: transactions, blocks and votes as bytes, their signatures and checks.
pub mod Platform
pub mod Address
pub mod Consensus
pub mod TransactionBase
pub mod BlockBase
