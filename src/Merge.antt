-- ===== src/Merge.antt =====
-- native/rocker/src/merge.rs: the merge operators that RocksDB calls back.
pub mod Counter
pub mod Bitset
pub mod Outcome
pub mod Term
pub mod Vector
pub mod Operation
pub mod Erlang
