-- ===== src/Bits.antt =====
-- Python's `&`, `|`, `^`, `<<` and `>>` on numbers, and what they are in arithmetic.
mod Digits
pub mod Fields
pub mod Xor
