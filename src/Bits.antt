-- ===== src/Bits.antt =====
-- Laws of `^`, `|` and `&` at every width, which the checksum and the identifiers rest on.
mod Step
pub mod Xor
pub mod Fields
pub mod Split
