-- ===== src/Tests.antt =====
-- Concrete data, and the theorems at it.
mod Samples
mod Rows
mod Utils
mod Base
mod Core
mod Chain
mod Storage
mod Weight
mod Blocks
mod Assets
mod Orm
mod SmartDb
mod Events
