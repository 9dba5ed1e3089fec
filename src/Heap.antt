-- ===== src/Heap.antt =====
-- Heap bookkeeping: src/util/heap, src/util/treadmill.rs and src/plan/gc_requester.rs.
pub mod Accounting
pub mod Requester
pub mod Treadmill
pub mod LargeObjects
pub mod Mmapper
