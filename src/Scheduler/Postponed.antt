-- ===== src/Scheduler/Postponed.antt =====
-- Postponed concurrent packets: `postpone` and its variants,
-- `pause_concurrent_marking_work_packets_during_gc` and `process_lazy_decrement_packets` of
-- src/scheduler/scheduler.rs. `fuel` bounds the rounds of a loop that steals until a queue is empty.
pub mod Moved
use mmtk_core.Base.{
  ℕ, zero, suc, ◌==◌, Bool, true, false, Option, none, some, List, [], ◌∷◌, ◌++◌, if◌then◌else◌,
  update,
}
use mmtk_core.Scheduler.Injector.{Injector, Steal}
use mmtk_core.Scheduler.Bucket.{WorkBucket, Notify}
use mmtk_core.Scheduler.Bucket.Work.{swap_queue, push_all, bulk_add}
use mmtk_core.Scheduler.Parked.{GcWorkScheduler}

-- `WorkBucketStage::STWRCDecsAndSweep`
abbrev pub stw_rc_decs_stage : ℕ
stw_rc_decs_stage = 19

module _ {W Q L D : Type 0} (I : Injector W Q L D) where
  -- One round of the loop, after its `steal`; `rest` is what the next round does.
  unfoldable pub drain_on : Steal W → Q → (Q → Q) → Q
  drain_on Steal.empty postponed rest = postponed
  drain_on (Steal.success x) postponed rest = rest (I.push x postponed)
  drain_on Steal.retry postponed rest = rest postponed

  -- Steal from one queue until it is empty, and push what was stolen onto another.
  unfoldable pub drain : ℕ → Q → Q → Q
  unfolding drain_on
  drain zero queue postponed = postponed
  drain (suc fuel) queue postponed =
      drain_on (I.steal queue).0 postponed (drain fuel (I.steal queue).1)

  unfoldable pub sort_on :
      (W → Bool)
      → Steal W
      → Q
      → List W
      → List W
      → (List W → List W → Q × List W × List W)
      → Q × List W × List W
  sort_on is_cm Steal.empty queue no_postpone cm_packets rest = (queue, no_postpone, cm_packets)
  sort_on is_cm (Steal.success w) queue no_postpone cm_packets rest =
      rest (if is_cm w then no_postpone else no_postpone ++ w ∷ [])
        (if is_cm w then cm_packets ++ w ∷ [] else cm_packets)
  sort_on is_cm Steal.retry queue no_postpone cm_packets rest = rest no_postpone cm_packets

  -- The first loop of `process_lazy_decrement_packets`: the queue that is left, then the packets for
  -- the pause and the ones of concurrent marking, as the vectors `no_postpone` and `cm_packets`.
  unfoldable pub sort_packets : (W → Bool) → ℕ → Q → List W → List W → Q × List W × List W
  unfolding sort_on
  sort_packets is_cm zero queue no_postpone cm_packets = (queue, no_postpone, cm_packets)
  sort_packets is_cm (suc fuel) queue no_postpone cm_packets =
      let rest = sort_packets is_cm fuel (I.steal queue).1 in
      if I.is_empty queue
      then (queue, no_postpone, cm_packets)
      else sort_on is_cm (I.steal queue).0 (I.steal queue).1 no_postpone cm_packets rest

module _ {W Q L D E : Type 0} (I : Injector W Q L D) where
  -- `postpone` and `postpone_dyn`, which box the packet or take it boxed.
  unfoldable pub postpone : W → GcWorkScheduler W Q L D E → GcWorkScheduler W Q L D E
  postpone w s = record s { postponed_concurrent_work = I.push w s.postponed_concurrent_work }

  unfoldable pub postpone_prioritized : W → GcWorkScheduler W Q L D E → GcWorkScheduler W Q L D E
  postpone_prioritized w s = record s {
    postponed_concurrent_work_prioritized = I.push w s.postponed_concurrent_work_prioritized;
  }

  unfoldable pub postpone_all : List W → GcWorkScheduler W Q L D E → GcWorkScheduler W Q L D E
  unfolding push_all
  postpone_all ws s = record s {
    postponed_concurrent_work = push_all I ws s.postponed_concurrent_work;
  }

  unfoldable pub postpone_all_prioritized :
      List W → GcWorkScheduler W Q L D E → GcWorkScheduler W Q L D E
  unfolding push_all
  postpone_all_prioritized ws s = record s {
    postponed_concurrent_work_prioritized = push_all I ws s.postponed_concurrent_work_prioritized;
  }

  unfoldable pub pause_concurrent_marking_work_packets_during_gc :
      ℕ → GcWorkScheduler W Q L D E → GcWorkScheduler W Q L D E
  unfolding drain swap_queue
  pause_concurrent_marking_work_packets_during_gc fuel s =
      let (unconstrained_queue, b) = swap_queue I.new (s.work_buckets 0) in
      let postponed =
        if I.is_empty unconstrained_queue
        then s.postponed_concurrent_work
        else drain I fuel unconstrained_queue s.postponed_concurrent_work in
      record s {
        work_buckets = update s.work_buckets 0 b;
        postponed_concurrent_work = postponed;
        pause_concurrent_marking = true;
      }

  -- After the first loop: the packets of concurrent marking go back, the others to the stage.
  unfoldable pub place_packets :
      Q → List W → List W → GcWorkScheduler W Q L D E → GcWorkScheduler W Q L D E × Option Notify
  unfolding push_all bulk_add
  place_packets queue [] cm_packets s =
      (record s { postponed_concurrent_work_prioritized = push_all I cm_packets queue }, none)
  place_packets queue (w ∷ ws) cm_packets s =
      let (b, notify) = bulk_add I (w ∷ ws) (s.work_buckets stw_rc_decs_stage) in
      (
        record s {
          work_buckets = update s.work_buckets stw_rc_decs_stage b;
          postponed_concurrent_work_prioritized = push_all I cm_packets queue;
        },
        notify,
      )

  -- `is_cm` is `is_concurrent_marking_work` of a packet.
  unfoldable pub process_lazy_decrement_packets :
      (W → Bool) → ℕ → GcWorkScheduler W Q L D E → GcWorkScheduler W Q L D E × Option Notify
  unfolding sort_packets place_packets
  process_lazy_decrement_packets is_cm fuel s =
      let (queue, no_postpone, cm_packets) =
        sort_packets I is_cm fuel s.postponed_concurrent_work_prioritized [] [] in
      place_packets queue no_postpone cm_packets s
