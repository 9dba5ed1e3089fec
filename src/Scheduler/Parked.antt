-- ===== src/Scheduler/Parked.antt =====
-- What the last parked worker does: `on_last_parked`, `respond_to_requests`,
-- `find_more_work_for_workers` and `on_gc_finished` of src/scheduler/scheduler.rs.
pub mod Answer
pub mod Shape
pub mod Total
pub mod Finished
pub mod LastParked
use mmtk_core.Base.{
  ℕ, zero, suc, ◌==◌, Bool, true, false, not, ◌&&◌, ◌||◌, Option, none, some, List, [], ◌∷◌,
  if◌then◌else◌, update,
}
use mmtk_core.Scheduler.Injector.{Injector}
use mmtk_core.Scheduler.Bucket.{WorkBucket, Notify, stage_count}
use mmtk_core.Scheduler.Bucket.Work.{
  add_boxed_no_notify, swap_queue, swap_queue_prioritized, set_in_concurrent,
}
use mmtk_core.Scheduler.Goals.{
  WorkerGoal, gc, stop_for_fork, WorkerGoals, poll_next_goal, on_current_goal_completed,
}
use mmtk_core.Scheduler.Core.{schedule_sentinels, update_buckets, deactivate_all}

pub data LastParkedResult : Type 0 where
  park_self wake_self wake_all : LastParkedResult

-- A panic of the source, by its cause. `in_call` is one inside a call of `Runtime`.
pub data Panic : Type 0 where
  goal_in_progress gc_requested_during_gc gc_already_started gc_not_started : Panic
  parked_when_asked_to_exit no_prioritized_queue no_current_pause in_call : Panic

pub data Outcome (A : Type 0) : Type 0 where
  ok : A → Outcome A
  panic : Panic → Outcome A

infixl 5 ◌>>=◌
abbrev pub ◌>>=◌ : {A B : Type 0} → Outcome A → (A → Outcome B) → Outcome B
ok a >>= f = f a
panic p >>= f = panic p

-- The part of a worker that the scheduler looks at.
pub record GcWorker (L D : Type 0) : Type 0 where
  pub designated_work : D
  pub local_work_buffer : L

pub data Pause : Type 0 where
  full full_defrag ref_count initial_mark final_mark : Pause

-- The rest of MMTk as `on_gc_finished` sees it: `E` holds the state of the plan, the GC trigger, the
-- statistics and the VM. Each field that gives an `Outcome` is one call that changes it, and may panic;
-- `add_pause_time` is what `dump_gc_stats` does with the pause, and `end_lxr_pause` is what
-- `gc_pause_end` of the LXR plan does with it.
pub record Runtime (E : Type 0) : Type 0 where
  pub now : E → ℕ
  pub is_lxr : E → Bool
  pub current_pause : E → Option Pause
  pub do_class_unloading : E → Outcome E
  pub add_pause_time : Pause → E → Outcome E
  pub on_gc_end : E → Outcome E
  pub end_of_gc : E → Outcome E
  pub aggregate_live_bytes : E → Outcome E
  pub end_lxr_pause : Pause → E → Outcome E
  pub reset_collection_trigger : E → Outcome E
  pub set_not_in_gc : E → Outcome E
  pub resume_mutators : E → Outcome E

-- `current_pause().unwrap()`
unfoldable pub unwrap_pause : Option Pause → Outcome Pause
unwrap_pause none = panic no_current_pause
unwrap_pause (some p) = ok p

-- The pause of a plan that is not LXR counts as full.
unfoldable pub dump_gc_stats : {E : Type 0} → Runtime E → E → Outcome E
unfolding unwrap_pause
dump_gc_stats R e = do
  pause ← (if R.is_lxr e then unwrap_pause (R.current_pause e) else ok full)
  R.add_pause_time pause e

unfoldable pub gc_pause_end : {E : Type 0} → Runtime E → E → Outcome E
unfolding unwrap_pause
gc_pause_end R e =
    let ended = unwrap_pause (R.current_pause e) >>= (λ pause. R.end_lxr_pause pause e) in
    if R.is_lxr e then ended else ok e

pub record GcWorkScheduler (W Q L D E : Type 0) : Type 0 where
  pub work_buckets : ℕ → WorkBucket W Q
  pub workers : List (GcWorker L D)
  pub postponed_concurrent_work : Q
  pub postponed_concurrent_work_prioritized : Q
  pub in_gc_pause : Bool
  pub bucket_update_progress : ℕ
  pub gc_start_time : Option ℕ
  pub move_concurrent_marking_to_stw : Bool
  pub pause_concurrent_marking : Bool
  pub runtime : E

module _ {W Q L D E : Type 0} (I : Injector W Q L D) (R : Runtime E) (schedule_collection : W) where
  -- `WorkerGroup::has_designated_work`
  unfoldable pub has_designated_work : List (GcWorker L D) → Bool
  has_designated_work [] = false
  has_designated_work (w ∷ ws) =
      not (I.designated_is_empty w.designated_work) || has_designated_work ws

  -- The packet goes to `Unconstrained`, and no worker is notified.
  unfoldable pub add_schedule_collection_packet :
      GcWorkScheduler W Q L D E → GcWorkScheduler W Q L D E
  add_schedule_collection_packet s = record s {
    work_buckets =
        update s.work_buckets 0 (add_boxed_no_notify I schedule_collection (s.work_buckets 0));
  }

  unfoldable pub try_update_buckets : GcWorkScheduler W Q L D E → GcWorkScheduler W Q L D E × Bool
  try_update_buckets s =
      let (bs, progress, found) = update_buckets I s.work_buckets s.bucket_update_progress in
      (record s { work_buckets = bs; bucket_update_progress = progress }, found)

  unfoldable pub find_more_work_for_workers :
      GcWorkScheduler W Q L D E → GcWorkScheduler W Q L D E × Bool
  unfolding try_update_buckets
  find_more_work_for_workers s =
      let (bs, scheduled) = schedule_sentinels I s.work_buckets in
      let s' = record s { work_buckets = bs } in
      if has_designated_work s.workers
      then (s, true)
      else if scheduled
      then (s', true)
      else try_update_buckets s'

  -- `schedule_postponed_concurrent_packets`: both queues are taken.
  unfoldable pub schedule_postponed_concurrent_packets :
      GcWorkScheduler W Q L D E → (Q × Q) × GcWorkScheduler W Q L D E
  schedule_postponed_concurrent_packets s = (
    (s.postponed_concurrent_work, s.postponed_concurrent_work_prioritized),
    record s { postponed_concurrent_work = I.new; postponed_concurrent_work_prioritized = I.new },
  )

  unfoldable pub install_queue : Q → GcWorkScheduler W Q L D E → GcWorkScheduler W Q L D E
  install_queue q s =
      if I.is_empty q
      then s
      else record s { work_buckets = update s.work_buckets 0 (swap_queue q (s.work_buckets 0)).1 }

  unfoldable pub put_bucket :
      Option (Q × WorkBucket W Q) → GcWorkScheduler W Q L D E → Outcome (GcWorkScheduler W Q L D E)
  put_bucket none s = panic no_prioritized_queue
  put_bucket (some (old, b)) s = ok (record s { work_buckets = update s.work_buckets 0 b })

  unfoldable pub install_prioritized :
      Q → GcWorkScheduler W Q L D E → Outcome (GcWorkScheduler W Q L D E)
  unfolding put_bucket
  install_prioritized q s =
      if I.is_empty q then ok s else put_bucket (swap_queue_prioritized q (s.work_buckets 0)) s

  -- Workers are woken when a queue was installed.
  unfoldable pub schedule_concurrent_packets :
      Q × Q → GcWorkScheduler W Q L D E → Outcome (GcWorkScheduler W Q L D E × Option Notify)
  unfolding install_queue install_prioritized
  schedule_concurrent_packets (queue, pqueue) s = do
    let s0 = record s { move_concurrent_marking_to_stw = false; pause_concurrent_marking = false }
    s1 ← install_prioritized pqueue (install_queue queue s0)
    ok (s1, if not (I.is_empty queue) || not (I.is_empty pqueue) then some Notify.all else none)

  unfoldable pub set_in_gc_pause : Bool → GcWorkScheduler W Q L D E → GcWorkScheduler W Q L D E
  set_in_gc_pause p s = record s {
    in_gc_pause = p;
    work_buckets = λ i. set_in_concurrent (not p) (s.work_buckets i);
  }

  -- `gc_start_time.take().expect("GC not started yet?")`
  unfoldable pub take_start_time :
      Option ℕ → GcWorkScheduler W Q L D E → Outcome (GcWorkScheduler W Q L D E)
  take_start_time none s = panic gc_not_started
  take_start_time (some t) s = ok (record s { gc_start_time = none })

  unfoldable pub on_gc_finished :
      GcWorkScheduler W Q L D E → Outcome (GcWorkScheduler W Q L D E × Option Notify)
  unfolding schedule_postponed_concurrent_packets take_start_time
  on_gc_finished s = do
    let closed = deactivate_all I s.work_buckets
    e1 ← R.do_class_unloading s.runtime
    e2 ← dump_gc_stats R e1
    let s1 = record s { work_buckets = closed.0; bucket_update_progress = closed.1; runtime = e2 }
    let postponed = schedule_postponed_concurrent_packets s1
    e3 ← R.on_gc_end e2
    e4 ← R.end_of_gc e3
    s2 ← take_start_time postponed.1.gc_start_time (record (postponed.1) { runtime = e4 })
    e5 ← R.aggregate_live_bytes s2.runtime
    e6 ← gc_pause_end R e5
    e7 ← R.reset_collection_trigger e6
    e8 ← R.set_not_in_gc e7
    e9 ← R.resume_mutators e8
    schedule_concurrent_packets postponed.0 (set_in_gc_pause false (record s2 { runtime = e9 }))

  unfoldable pub start_gc :
      Option ℕ → GcWorkScheduler W Q L D E → Outcome (GcWorkScheduler W Q L D E)
  unfolding add_schedule_collection_packet
  start_gc (some t) s = panic gc_already_started
  start_gc none s =
      ok (add_schedule_collection_packet (record s { gc_start_time = some (R.now s.runtime) }))

  abbrev pub Answer : Type 0
  Answer = GcWorkScheduler W Q L D E × WorkerGoals × LastParkedResult

  unfoldable pub respond_to_goal :
      Option WorkerGoal → GcWorkScheduler W Q L D E → WorkerGoals → Outcome Answer
  unfolding start_gc
  respond_to_goal none s g = ok (s, g, park_self)
  respond_to_goal (some gc) s g = do s' ← start_gc s.gc_start_time s; ok (s', g, wake_self)
  respond_to_goal (some stop_for_fork) s g = ok (s, g, wake_all)

  abbrev pub is_none : Option WorkerGoal → Bool
  is_none none = true
  is_none (some g) = false

  unfoldable pub respond_to_requests : GcWorkScheduler W Q L D E → WorkerGoals → Outcome Answer
  unfolding respond_to_goal
  respond_to_requests s g =
      let (g', goal) = poll_next_goal g in
      if is_none g.current then respond_to_goal goal s g' else panic goal_in_progress

  -- The current goal is a collection. The notification that `on_gc_finished` sends is left out.
  unfoldable pub continue_gc : GcWorkScheduler W Q L D E → WorkerGoals → Outcome Answer
  continue_gc s g =
      let (s', found) = find_more_work_for_workers s in
      let finished = (do
        done ← on_gc_finished s'
        respond_to_requests done.0 (on_current_goal_completed g)) in
      if g.gc_requested
      then panic gc_requested_during_gc
      else if found
      then ok (s', g, wake_all)
      else finished

  unfoldable pub pursue_goal :
      Option WorkerGoal → GcWorkScheduler W Q L D E → WorkerGoals → Outcome Answer
  unfolding continue_gc
  pursue_goal none s g = respond_to_requests s g
  pursue_goal (some gc) s g = continue_gc s g
  pursue_goal (some stop_for_fork) s g = panic parked_when_asked_to_exit

  unfoldable pub on_last_parked : GcWorkScheduler W Q L D E → WorkerGoals → Outcome Answer
  unfolding pursue_goal
  on_last_parked s g = pursue_goal g.current s g
