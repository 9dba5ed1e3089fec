-- ===== src/Tests/Postponed.antt =====
-- Postponed packets, src/scheduler/scheduler.rs.
use mmtk_core.Base.{ℕ, ◌%◌, ◌==◌, ◌≡◌, ◌≢◌, true, false, none, List, [], ◌∷◌, if◌then◌else◌, arith}
use mmtk_core.Tests.Queues.{queues, steal_first}
use mmtk_core.Scheduler.Injector.{Steal}
use mmtk_core.Scheduler.Parked.{GcWorkScheduler}
use mmtk_core.Scheduler.Postponed.{process_lazy_decrement_packets, stw_rc_decs_stage}
use mmtk_core.Scheduler.Postponed.Moved.{process_lazy_decrement_packets_lem}

-- Two packets wait in `Unconstrained`; one packet and four prioritized ones are postponed.
abbrev state : GcWorkScheduler ℕ (List ℕ) (List ℕ) (List ℕ) ℕ
state = record {
  work_buckets = λ i. record {
    disable = false;
    active = i == 0;
    queue = if i == 0 then 1 ∷ 2 ∷ [] else [];
    prioritized_queue = none;
    can_open = none;
    sentinel = none;
    in_concurrent = true;
  };
  workers = [];
  postponed_concurrent_work = 9 ∷ [];
  postponed_concurrent_work_prioritized = 3 ∷ 4 ∷ 5 ∷ 6 ∷ [];
  in_gc_pause = false;
  bucket_update_progress = 0;
  gc_start_time = none;
  move_concurrent_marking_to_stw = false;
  pause_concurrent_marking = false;
  runtime = 0;
}

uncontended : (q : List ℕ) → (steal_first q).0 ≢ Steal.retry
uncontended [] e = cc
uncontended (x ∷ xs) e = cc

-- The even packets are of concurrent marking.
process_lazy_decrement_packets_lem_example :
    ((process_lazy_decrement_packets queues
        (λ w. w % 2 == 0)
        4
        state).0.postponed_concurrent_work_prioritized
      ≡ 4 ∷ 6 ∷ [])
    × (((process_lazy_decrement_packets queues (λ w. w % 2 == 0) 4 state).0.work_buckets
          stw_rc_decs_stage).queue
        ≡ 3 ∷ 5 ∷ [])
process_lazy_decrement_packets_lem_example =
    process_lazy_decrement_packets_lem queues (λ w. w % 2 == 0) 4 state uncontended (omega arith)
