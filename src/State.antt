-- ===== src/State.antt =====
-- internal/state: the agent records that the dashboard reads, resolves and prunes.
pub mod Arbitration
pub mod Order
pub mod Disk
pub mod Orphan
pub mod Prune
pub mod Targets
pub mod Branches
pub mod Markers
pub mod FileLock
pub mod SpawnPin
mod Examples
