-- ===== src/Samples.antt =====
-- The theorems at concrete inputs, and tests of the definitions.
mod Tables
mod Spelling
mod Stripping
mod Reading
mod Corpus
mod Ladder
mod Service
mod Devices
mod Pulls
mod Triaging
mod Lexicon
mod Senses
mod Timings
mod Build
mod Accounts
