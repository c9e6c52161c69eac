-- ===== src/Contract.antt =====
-- packages/main/src/contract and core/transactions.ts: the effects of transactions on the chain's tables.
pub mod Ledger
pub mod Basic
pub mod Assets
