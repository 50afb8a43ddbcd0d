-- ===== src/Strings.antt =====
-- What the examples use of Rust's `str`: UTF-8, `split_once` and the decimal form of a number.
pub mod Utf8
pub mod Split
pub mod Decimal
