-- ===== src/Nif.antt =====
-- The functions of native/rocker/src/nif.rs that Erlang calls.
pub mod Rocks
pub mod Handlers
pub mod Open
pub mod Backup
pub mod Batch
pub mod MultiGet
pub mod Mode
pub mod Lifecycle
pub mod Locking
pub mod Take
pub mod Snapshot
pub mod Iterators
