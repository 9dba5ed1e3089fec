-- ===== src/Scheduler/Bucket.antt =====
-- `WorkBucket` and `WorkBucketStage` of src/scheduler/work_bucket.rs. A bucket holds the work packets
-- of one stage of a collection. An operation that wakes workers through the monitor returns which
-- notification it sends.
pub mod Work
pub mod Polling
use mmtk_core.Base.{ℕ, Bool, Option, List}

-- `WorkerMonitor::notify_work_available(all)`
pub data Notify : Type 0 where
  one all : Notify

-- The stages, without the one that the feature `vo_bit` adds.
pub data WorkBucketStage : Type 0 where
  unconstrained finish_concurrent_work initial prepare : WorkBucketStage
  t_pinning_closure pinning_roots_trace closure : WorkBucketStage
  soft_ref_closure weak_ref_closure final_ref_closure phantom_ref_closure : WorkBucketStage
  vm_ref_closure calculate_forwarding second_roots ref_forwarding : WorkBucketStage
  finalizable_forwarding vm_ref_forwarding compact release : WorkBucketStage
  stw_rc_decs_and_sweep cycle_collection final : WorkBucketStage

-- The derived `Enum::into_usize`: the position in the declaration.
abbrev pub into_usize : WorkBucketStage → ℕ
into_usize unconstrained = 0
into_usize finish_concurrent_work = 1
into_usize initial = 2
into_usize prepare = 3
into_usize t_pinning_closure = 4
into_usize pinning_roots_trace = 5
into_usize closure = 6
into_usize soft_ref_closure = 7
into_usize weak_ref_closure = 8
into_usize final_ref_closure = 9
into_usize phantom_ref_closure = 10
into_usize vm_ref_closure = 11
into_usize calculate_forwarding = 12
into_usize second_roots = 13
into_usize ref_forwarding = 14
into_usize finalizable_forwarding = 15
into_usize vm_ref_forwarding = 16
into_usize compact = 17
into_usize release = 18
into_usize stw_rc_decs_and_sweep = 19
into_usize cycle_collection = 20
into_usize final = 21

-- `WorkBucketStage::LENGTH`
abbrev pub stage_count : ℕ
stage_count = 22

abbrev pub first_stw_stage : ℕ
first_stw_stage = 1

-- The open condition of a bucket is always `are_buckets_drained` of the stages that its closure
-- captured, so `can_open` holds those stages. The monitor is not part of the record: see `Notify`.
pub record WorkBucket (W Q : Type 0) : Type 0 where
  pub disable : Bool
  pub active : Bool
  pub queue : Q
  pub prioritized_queue : Option Q
  pub can_open : Option (List ℕ)
  pub sentinel : Option W
  pub in_concurrent : Bool
