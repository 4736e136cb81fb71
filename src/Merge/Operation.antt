-- ===== src/Merge/Operation.antt =====
-- `process_eetf_merge_operation` of native/rocker/src/merge.rs, one function for each operation.
-- `existing` is the value before, `none` if there is none. Positions are i32 values cast to usize
-- on a 64-bit target, and usize additions wrap around.
pub mod Lists
pub mod Binaries
pub mod Dispatch
pub mod Panics
pub mod Splices
pub mod Integers
pub mod Results
pub mod Faults
pub mod Rewrites
