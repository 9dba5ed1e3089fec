-- ===== src/Lib.antt =====
-- mmtk-core: the work scheduler, object forwarding, the Immix space's lines and blocks, reference counts,
-- finalizers and the heap bookkeeping of the memory management toolkit.
--
-- The parts and the files that model them, with paths from the root of the repository:
--
-- Scheduler: src/scheduler. A collection is a sequence of stages; each stage has a work bucket, which
--   is opened when the packets of the earlier ones have run. The worker that parks last decides what
--   happens next.
--   Scheduler/Injector: the queues of crossbeam, as an interface of operations and laws.
--   Scheduler/Bucket, Bucket/Work: `WorkBucketStage` and `WorkBucket`, work_bucket.rs; Bucket/Polling
--   follows the packets that `poll` moves.
--   Scheduler/Goals: `WorkerGoals`, worker_goals.rs.
--   Scheduler/Core: `new`, `update_buckets`, `schedule_sentinels`, `deactivate_all` and `reset_state` of
--   `GCWorkScheduler`, scheduler.rs; its children hold the lemmas on one round (Opened), on the whole
--   loop as a derivation (Rounds), on the order of stages (Order), on its end (Finish), on the open
--   conditions (Wiring) and what callers rely on (Update).
--   Scheduler/Parked: `on_last_parked` and all that it calls, with `on_gc_finished`. What that does to
--   the plan, the trigger and the VM is the record `Runtime`, a function for each call that may panic.
--   `dump_gc_stats` and the `gc_pause_end` of src/plan/lxr/global.rs are written out as far as they
--   unwrap the current pause. A panic is a value of `Outcome`. Its children: the answers (Answer), what the state keeps (Shape,
--   Total), the end of a collection (Finished) and the whole call (LastParked).
--   Scheduler/Poll: `poll_schedulable_work_once`, scheduler.rs, on what one worker sees (`View`);
--   Poll/Nothing is about the case in which it finds no packet.
--   Scheduler/Postponed: `postpone`, `pause_concurrent_marking_work_packets_during_gc` and
--   `process_lazy_decrement_packets`, scheduler.rs; Postponed/Moved follows the packets.
--   Scheduler/Monitor, Monitor/Steps: `WorkerMonitor`, worker_monitor.rs. A critical section of its mutex
--   is one step; any worker may wake at any time, as a condition variable allows.
-- Forwarding: src/util/object_forwarding.rs as src/policy/copyspace.rs calls it. Each access to the
--   forwarding bits or the forwarding pointer is a step of one of `n` workers, under sequentially
--   consistent memory, which is the order the source asks for. A forwarding word is 64 bits, in the
--   lowest byte, the highest one and the six between; the bits are in the lowest byte, in the highest
--   one, or in a byte apart from the pointer, as a `Layout` says, at an even place. The highest byte of
--   a reference is 0, and so are its lowest three bits. Bits of the status' byte that are not the
--   object's may change at any moment. View has the status and the pointer as two values and the
--   accesses to them; Packed shows that the packed word stands for them; Moves and Safety follow the
--   workers.
-- Metadata: src/util/metadata/side_metadata, on a 64-bit machine, where all metadata is contiguous.
--   Metadata/Ranges: `break_bit_range`, ranges.rs.
--   Metadata/Spec: `SideMetadataSpec` of global.rs and the translation of addresses, helpers.rs. The name
--   of a spec and whether it is global select nothing on a 64-bit machine, and are left out.
--   Metadata/Bytes, Access: loads, stores and atomic updates of `SideMetadataSpec`, global.rs, over a
--   memory of bytes; Bytes decides facts on a byte by running through all bytes. Its children: values of
--   several bytes (Words), where a value lies (Lanes), loads after stores (Region), updates (Update),
--   updates by a function (Applied) and
--   `compare_exchange_atomic` against writes of other threads (Exchange).
--   Metadata/Bulk: `zero_meta_bits`, `set_meta_bits`, `bulk_update_metadata`, `bzero_metadata` and
--   `bset_metadata`, global.rs, which run `break_bit_range` with a visitor that writes memory.
-- Alloc: src/util/alloc. Align is the alignment of allocator.rs, with its bounds in Align/Bounds; Bump is
--   `BumpAllocator`, bumpallocator.rs, with the blocks that serve a request (Serve) and the objects of
--   one buffer (Packed). The constants of a VM and the answers of a space are parameters. The cursor
--   and the size are added in words of 64 bits, as they are where a block is acquired; rounding a size up
--   to blocks does not wrap.
-- FreeList: the trait `FreeList` of src/util/freelist.rs on the table of `IntArrayFreeList`,
--   src/util/int_array_freelist.rs. An `i32` is its word of 32 bits. An access outside the table is a
--   panic in the source and has no counterpart, since the table is a function.
--   FreeList/Entries, Fields, Sizes: entries and the fields packed into them after a write. Ring: runs
--   of linked units; Moves, Push, Sized: units that leave and come, and the sizes of blocks meanwhile.
--   Fit, Split, Alloc: `alloc_first_fit`. Initialize: `initialize_heap` and `IntArrayFreeList::new`; its
--   children follow the blocks (Blocks) and the whole table (New).
-- MarkSweep: src/policy/marksweepspace/native_ms/block_list.rs. BlockList is the doubly linked list over
--   the metadata of blocks; Bins is the choice of the size class. A `usize` has 64 bits.
-- Heap: Accounting is `PageAccounting` of src/util/heap/accounting.rs and its use in
--   src/util/heap/pageresource.rs; Treadmill is `TreadMill` of src/util/treadmill.rs, with
--   any sequence of its operations in Treadmill/Collection; Requester is `GCRequester` of
--   src/plan/gc_requester.rs.
--   Heap/LargeObjects: the collections of src/policy/largeobjectspace.rs over the treadmill and the mark
--   and nursery bits, with `unreachable!()` as a value; LargeObjects/Collected is about whole ones.
--   Heap/Mmapper: `ByteMapMmapper` of src/util/heap/layout/byte_map_mmapper.rs and the transitions of
--   `MapState`, mmapper.rs. A call of the system is recorded; whether it succeeds is a parameter. Its
--   children: what a method has done (Ensured), what calls leave behind (System), and what a method may ask the
--   system for (Guarded).
-- Immix: src/policy/immix, over the lines of one block.
--   Immix/Lines: `get_next_available_lines`, immixspace.rs, and the tables it writes, line.rs. Its
--   children: runs of lines (Run), what a search promises (Search), and the searches by line marks
--   (Normal) and by reference counts (Counted), each with a module for one round (Normal/Hole, Usable).
--   Immix/Block: `BlockState` and `sweep`, block.rs, with the histogram of defrag.rs. Its children: the
--   state byte (States), what the loop counts (Tallied) and the whole sweep (Swept).
--   Immix/Holes: `calc_dead_lines`, `iter_holes`, `has_holes` and `calc_holes`, block.rs.
--   Immix/Cycle: the mark states of `prepare` and `release`, immixspace.rs, as steps of a space with one
--   block, which is marked and swept; Cycle/Fresh follows the marks.
-- Lxr: Counts is `RefCountHelper` of src/util/rc.rs, over side metadata; Counts/Changes is a sequence of
--   changes, and Counts/Sticky compares counts with references.
-- Finalization: `FinalizableProcessor` of src/util/finalizable_processor.rs. The VM and the closure are
--   the record `Tracing`. Its children: one scan (Partition), and any calls (Counted).
-- Base: Boolean tests, families indexed by numbers, lists and counting. Tests: concrete inputs.
--
-- The mutators' requests reach `WorkerMonitor` through `GCRequester`; the worker that parks last calls
-- `on_last_parked`, which polls `WorkerGoals`, opens buckets of `GCWorkScheduler`, or ends the
-- collection. `Monitor/Steps` leaves that callback open, so what it proves holds whatever the callback
-- does; `Parked/LastParked` is about the callback itself.
--
-- Fuel: `iter` and `append` of BlockList follow links for at most as many rounds as their fuel says; the
-- theorems take any fuel of at least the number of blocks. The loops of Postponed steal until a queue is
-- empty; fuel for the packets in it is enough when no other thread steals. The loop of
-- `alloc_first_fit` follows links; fuel for more rounds than there are free units is enough.
-- The loop that fills an
-- alignment gap has a round for each byte of the gap and needs one for each int.
-- `bit_length` divides a 64-bit
-- word 64 times.
-- The searches for lines go round once for each hole that is too short; fuel for more rounds than there
-- are lines is enough, as it is for `iter_holes` and `calc_holes`. A loop over lines or chunks has a
-- round for each.
-- The loops over stages run over the 22 stages of a build without the feature `vo_bit`.
--
-- Not modelled: the spawning of threads, the packets' bodies, tracing probes and timers, the spin lock
-- of a block list, memory orders weaker than sequential consistency, the mapping
-- of metadata memory, the layouts of 32-bit machines, the blocks that an Immix space allocates and
-- releases, and the other spaces and plans.
-- `debug_assert!` is no part of an operation; where a theorem shows that one holds, it says so.
pub mod Base
pub mod Scheduler
pub mod Forwarding
pub mod Metadata
pub mod MarkSweep
pub mod Heap
pub mod Tests
pub mod Alloc
pub mod Finalization
pub mod FreeList
pub mod Immix
pub mod Lxr
