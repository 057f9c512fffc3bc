-- ===== src/Store.antt =====
-- server/internal/store/store.go beside the sync: the readers and their deletion, and the progress that
-- a reader is shown.
pub mod Readers
pub mod Progress
