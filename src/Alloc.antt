-- ===== src/Alloc.antt =====
-- Allocators: src/util/alloc.
pub mod Align
pub mod Bump
