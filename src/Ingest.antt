-- ===== src/Ingest.antt =====
-- What server/cmd/ingest/verify.go holds the downloaded files to.
pub mod Order
pub mod Verify
pub mod Counting
