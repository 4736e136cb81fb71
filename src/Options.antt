-- ===== src/Options.antt =====
-- The option maps of native/rocker/src/*_options.rs.
pub mod Rustler
pub mod Iterator
pub mod Read
pub mod Rocker
pub mod Write
