-- ===== src/Lane.antt =====
-- server/internal/lane/lane.go: the articles of Lane's Lexicon, made reachable by root.
pub mod Tables
pub mod Articles
