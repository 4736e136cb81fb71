-- ===== src/Options/Rocker.antt =====
-- `RockerOptions` of native/rocker/src/options.rs: the options a database is opened with.
--
-- All fields of the struct are of the form `Option<T>`. The struct is the table `fields` of names and
-- types, and a value of it a function from the name of a field to its value. The arms of `decode` and
-- the steps of `From` are tables too, an entry for each arm and each `if`, in the order of the source.
pub mod Types
pub mod Fields
pub mod Arms
pub mod Tables
pub mod Decode
pub mod Validate
pub mod Choices
pub mod Steps
pub mod Settings
