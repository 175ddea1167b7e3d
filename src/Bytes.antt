-- ===== src/Bytes.antt =====
-- Python's `bytes`: lists of numbers below 256, with the conversions and slices that the
-- integration uses and the exceptions that they raise.
mod Defs
pub mod Words
pub mod Strings
unfoldable pub use Defs.*
