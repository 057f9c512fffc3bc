-- ===== src/Sync.antt =====
-- server/internal/store/sync.go: the writes of the devices, over the tables that they change.
pub mod Tables
pub mod Kinds
pub mod Apply
pub mod Transaction
pub mod Batch
pub mod Writes
pub mod Once
pub mod Replay
pub mod Isolation
pub mod Changes
pub mod Reports
