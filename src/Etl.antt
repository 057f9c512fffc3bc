-- ===== src/Etl.antt =====
-- The corpus build: the readers of server/internal/timings and server/cmd/etl, which make the rows
-- of corpus.db, and the gate of server/cmd/etl/check.go that the rows have to pass.
pub mod Ints
pub mod Spans
pub mod Rows
pub mod Recite
pub mod Corpus
pub mod Gate
pub mod Align
pub mod Glosses
pub mod Buckwalter
pub mod Morphology
pub mod Verses
pub mod Loading
