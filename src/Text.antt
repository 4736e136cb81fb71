-- ===== src/Text.antt =====
-- What the code takes from Rust's standard library for text: `str::from_utf8`, `str::trim`,
-- `str::to_lowercase`, `str::split`, `str::parse` and `i64::to_string`.
pub mod Utf8
pub mod Str
pub mod Case
pub mod Number
