-- ===== src/Udasics.antt =====
-- src/udasics/udasics.c.
pub mod Table
pub mod State
pub mod Libcfg
pub mod Slots
pub mod Invariant
pub mod Alloc
pub mod Free
pub mod FreeAll
pub mod Fault
pub mod Register
pub mod Handler
pub mod Retry
pub mod Checker
pub mod Spec
pub mod Runs
