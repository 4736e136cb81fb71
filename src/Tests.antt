-- ===== src/Tests.antt =====
-- The theorems at concrete inputs, and the instances of the crates that these use.
pub mod Crates
pub mod Merging
pub mod Terms
pub mod Options
pub mod Database
pub mod Settings
pub mod Snapshots
pub mod Locking
