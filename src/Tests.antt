-- ===== src/Tests.antt =====
-- The theorems applied to concrete inputs, a module for each part of the program.
mod Queues
mod Scheduler
mod Monitor
mod Objects
mod Blocks
mod Pages
mod Treadmill
mod Postponed
mod Metadata
mod FreeLists
mod Allocators
mod Immix
mod Runtime
