-- ===== src/MarkSweep.antt =====
-- The free-list allocator of the mark-sweep space: src/policy/marksweepspace/native_ms.
pub mod Bins
pub mod BlockList
