-- ===== src/Scheduler.antt =====
-- The GC scheduler: src/scheduler.
pub mod Goals
pub mod Injector
pub mod Bucket
pub mod Core
pub mod Parked
pub mod Monitor
pub mod Postponed
pub mod Poll
