-- ===== src/Word.antt =====
-- 64-bit registers: the shifts, masks and complements that the library writes, and their laws.
-- A word is a natural number below 2 ^ 64.
mod Step
mod Pow
pub mod Bits
mod Ops
pub mod Slice
pub mod Fields
pub mod Align
pub use Ops.*
