-- ===== src/Senses.antt =====
-- server/internal/rootsense: does a proposed English sense predict the glosses of a root's words?
pub mod English
pub mod Stem
pub mod Corpus
pub mod Bucket
pub mod Glosses
pub mod Clauses
pub mod Score
pub mod Miss
