-- ===== src/Tests/Scheduler.antt =====
-- The opening of buckets and the answers of the last parked worker, src/scheduler/scheduler.rs.
use mmtk_core.Base.{
  ℕ, ◌+◌, ◌-◌, ◌≡◌, refl, Bool, true, false, none, some, List, [], ◌∷◌, if◌then◌else◌, ◌==◌, ltb,
  arith,
}
use mmtk_core.Tests.Queues.{queues}
use mmtk_core.Scheduler.Bucket.{WorkBucket}
use mmtk_core.Scheduler.Bucket.Work.{is_empty}
use mmtk_core.Scheduler.Injector.{Steal}
use mmtk_core.Scheduler.Poll.{View, poll_schedulable_work_once}
use mmtk_core.Scheduler.Poll.Nothing.{FoundNothing, poll_schedulable_work_once-FoundNothing}
use mmtk_core.Scheduler.Bucket.Work.{poll}
use mmtk_core.Scheduler.Bucket.Polling.{Polled, poll-Polled}
use mmtk_core.Scheduler.Core.{stages_from, update_buckets}
use mmtk_core.Scheduler.Core.Order.{IsWired, InOrder}
use mmtk_core.Scheduler.Core.Finish.{IsFinished, IsQuiet}
use mmtk_core.Scheduler.Core.Update.{
  update_buckets-IsFinished, update_buckets-next, update_buckets-InOrder, IsPast, NextStage,
}
use mmtk_core.Scheduler.Goals.{gc, WorkerGoals}
use mmtk_core.Scheduler.Parked.{
  LastParkedResult, ok, ref_count, Runtime, GcWorkScheduler, on_last_parked,
}
use mmtk_core.Scheduler.Parked.Total.{IsConsistent}
use mmtk_core.Scheduler.Parked.Finished.{HasPause, AreCallsSafe}
use mmtk_core.Scheduler.Parked.LastParked.{on_last_parked-total, Answered}

abbrev Buckets : Type 0
Buckets = ℕ → WorkBucket ℕ (List ℕ)

-- A collection has opened the first stop-the-world stage, which is drained. Stage 3 has a sentinel,
-- the packet 7, if `more` says so.
abbrev stw : Bool → Buckets
stw more i = record {
  disable = false;
  active = ltb i 2;
  queue = [];
  prioritized_queue = if i == 0 then some [] else none;
  can_open = if ltb i 2 then none else some (stages_from 1 (i - 1));
  sentinel = if more then (if i == 3 then some 7 else none) else none;
  in_concurrent = false;
}

wired : (more : Bool) → IsWired (stw more)
wired more = record { first = refl; later = λ i lo hi. ground arith }

past : (more : Bool) → IsPast queues (stw more) 1
past more j lo hi = ground arith

in_order : (more : Bool) → InOrder (stw more)
in_order more j m lo hi e = ground arith

quiet : IsQuiet queues (stw false)
unfolding is_empty
quiet j e = ground arith

done : (update_buckets queues (stw false) 0).2 ≡ false
unfolding update_buckets
done = refl

update_buckets-IsFinished_example : IsFinished queues ((update_buckets queues (stw false) 0).0 21)
update_buckets-IsFinished_example =
    update_buckets-IsFinished queues (stw false) 0 (wired false) quiet refl (omega arith)
      (λ j lo hi. absurd (omega arith)) done 21 (omega arith) (omega arith)

found : (update_buckets queues (stw true) 0).2 ≡ true
unfolding update_buckets
found = refl

update_buckets-next_example : NextStage queues (stw true) 0 (update_buckets queues (stw true) 0)
update_buckets-next_example =
    update_buckets-next queues (stw true) 0 (wired true) (omega arith) found

opened_three : (update_buckets queues (stw true) 0).1 ≡ 3
unfolding update_buckets
opened_three = refl

update_buckets-InOrder_example : InOrder (update_buckets queues (stw true) 0).0
update_buckets-InOrder_example =
    update_buckets-InOrder queues (stw true) 0 (wired true) (omega arith) (in_order true)

-- Two prioritized packets and one other.
abbrev loaded : WorkBucket ℕ (List ℕ)
loaded = record (stw false 0) { queue = 6 ∷ []; prioritized_queue = some (4 ∷ 5 ∷ []) }

poll-Polled_example : Polled queues loaded [] (poll queues loaded [])
poll-Polled_example = poll-Polled queues loaded []

-- A worker among three, when every queue is empty.
abbrev idle_view : View ℕ (List ℕ) (List ℕ) (List ℕ)
idle_view = record {
  designated_work = [];
  local_work_buffer = [];
  work_buckets = stw false;
  stealers = [] ∷ [] ∷ [];
}

finds_none : (poll_schedulable_work_once queues idle_view).0 ≡ Steal.empty
unfolding poll_schedulable_work_once poll
finds_none = refl

poll_schedulable_work_once-FoundNothing_example : FoundNothing queues idle_view
poll_schedulable_work_once-FoundNothing_example =
    poll_schedulable_work_once-FoundNothing queues idle_view finds_none

-- The rest of MMTk counts the calls; the plan is LXR, in a pause of reference counting.
abbrev runtime : Runtime ℕ
runtime = record {
  now = λ e. e;
  is_lxr = λ e. true;
  current_pause = λ e. some ref_count;
  do_class_unloading = λ e. ok (e + 1);
  add_pause_time = λ p e. ok (e + 1);
  on_gc_end = λ e. ok (e + 1);
  end_of_gc = λ e. ok (e + 1);
  aggregate_live_bytes = λ e. ok (e + 1);
  end_lxr_pause = λ p e. ok (e + 1);
  reset_collection_trigger = λ e. ok (e + 1);
  set_not_in_gc = λ e. ok (e + 1);
  resume_mutators = λ e. ok (e + 1);
}

paused : (e : ℕ) → HasPause runtime e
paused e h = (ref_count, refl)

calls_safe : AreCallsSafe runtime
calls_safe = record {
  unloads = λ e h. (e + 1, refl, paused (e + 1));
  adds = λ p e h. (e + 1, refl, paused (e + 1));
  ends = λ e h. (e + 1, refl, paused (e + 1));
  ends_plan = λ e h. (e + 1, refl, paused (e + 1));
  aggregates = λ e h. (e + 1, refl, paused (e + 1));
  ends_pause = λ p e. (e + 1, refl);
  resets = λ e. (e + 1, refl);
  leaves = λ e. (e + 1, refl);
  resumes = λ e. (e + 1, refl);
}

-- A collection that started at time 5.
abbrev collecting : GcWorkScheduler ℕ (List ℕ) (List ℕ) (List ℕ) ℕ
collecting = record {
  work_buckets = stw false;
  workers = [];
  postponed_concurrent_work = 8 ∷ [];
  postponed_concurrent_work_prioritized = 9 ∷ [];
  in_gc_pause = true;
  bucket_update_progress = 0;
  gc_start_time = some 5;
  move_concurrent_marking_to_stw = false;
  pause_concurrent_marking = true;
  runtime = 0;
}

abbrev idle : GcWorkScheduler ℕ (List ℕ) (List ℕ) (List ℕ) ℕ
idle = record collecting { gc_start_time = none; in_gc_pause = false }

abbrev pursuing_gc : WorkerGoals
pursuing_gc = record { current = some gc; gc_requested = false; fork_requested = true }

abbrev both_requested : WorkerGoals
both_requested = record { current = none; gc_requested = true; fork_requested = true }

consistent : IsConsistent queues runtime 1 collecting pursuing_gc
consistent = record {
  sound = record {
    shaped = record { wired = wired false; prioritized = ([], refl) };
    in_range = omega arith;
  };
  not_exiting = λ e. cc;
  started = λ e. (5, refl);
  not_requested = λ e. refl;
  not_started = λ e. cc;
}

on_last_parked-total_example :
    (r : GcWorkScheduler ℕ (List ℕ) (List ℕ) (List ℕ) ℕ × WorkerGoals × LastParkedResult)
    × (on_last_parked queues runtime 1 collecting pursuing_gc ≡ ok r)
    × Answered queues runtime 1 r
on_last_parked-total_example =
    on_last_parked-total queues runtime 1 collecting pursuing_gc calls_safe
      (λ e none_found. paused collecting.runtime) consistent
