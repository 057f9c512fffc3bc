-- ===== src/Root.antt =====
-- The package `root` (jidhr/pkg/root): from an Arabic word to its root.
pub mod Types
pub mod Normalize
pub mod Strip
pub mod Store
pub mod Memory
pub mod Languages
pub mod Resolve
pub mod Wazn
pub mod Pattern
