-- ===== src/Immix.antt =====
-- The Immix space, src/policy/immix.
pub mod Lines
pub mod Block
pub mod Cycle
pub mod Holes
