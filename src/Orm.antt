-- ===== src/Orm.antt =====
-- packages/database-postgres/src: the caches, the change tracker and the session.
pub mod BlockCache
pub mod Entity
pub mod Schema
pub mod UniquedCache
pub mod EntityCache
pub mod Changes
pub mod Tracker
pub mod Versions
pub mod Session
pub mod SmartDb
