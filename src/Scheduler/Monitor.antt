-- ===== src/Scheduler/Monitor.antt =====
-- `WorkerMonitor` of src/scheduler/worker_monitor.rs: how workers park, wake up and exit, and how
-- mutators post requests. A critical section of the mutex `sync` is one step.
pub mod Steps
use mmtk_core.Base.{ℕ, ◌+◌, ◌-◌, ◌==◌, Bool, true, false, Option, none, some, if◌then◌else◌}
use mmtk_core.Scheduler.Goals.{
  WorkerGoal, gc, stop_for_fork, WorkerGoals, default, set_request, on_current_goal_completed,
}
use mmtk_core.Scheduler.Bucket.{Notify}
use mmtk_core.Scheduler.Parked.{LastParkedResult, park_self, wake_self, wake_all}

pub record WorkerParker : Type 0 where
  pub worker_count : ℕ
  pub parked_workers : ℕ

unfoldable pub new_parker : ℕ → WorkerParker
new_parker n = record { worker_count = n; parked_workers = 0 }

-- The counter after the call, and whether all workers are parked.
unfoldable pub inc_parked_workers : WorkerParker → WorkerParker × Bool
inc_parked_workers p =
    (record p { parked_workers = p.parked_workers + 1 }, p.parked_workers + 1 == p.worker_count)

-- A positive counter is asserted.
unfoldable pub dec_parked_workers : WorkerParker → WorkerParker
dec_parked_workers p = record p { parked_workers = p.parked_workers - 1 }

-- The fields of `WorkerMonitorSync`, and the atomic counter `parked`.
pub record WorkerMonitor : Type 0 where
  pub parker : WorkerParker
  pub goals : WorkerGoals
  pub parked : ℕ

unfoldable pub new : ℕ → WorkerMonitor
unfolding new_parker
new n = record { parker = new_parker n; goals = default; parked = 0 }

unfoldable pub notify_work_available : Bool → Notify
notify_work_available all = if all then Notify.all else Notify.one

unfoldable pub make_request : WorkerGoal → WorkerMonitor → WorkerMonitor × Option Notify
unfolding notify_work_available
make_request goal m =
    let (goals, newly_requested) = set_request m.goals goal in
    (
      record m { goals = goals },
      if newly_requested then some (notify_work_available false) else none,
    )

-- What a worker does when it leaves a critical section of `park_and_wait`.
pub data Then : Type 0 where
  wait : Then
  return_ok : Then
  return_should_exit : Then

abbrev pub is_fork : Option WorkerGoal → Bool
is_fork (some stop_for_fork) = true
is_fork _ = false

-- From `// Unpark this worker.` to the end of `park_and_wait`.
unfoldable pub unpark : WorkerMonitor → WorkerMonitor × Then
unfolding dec_parked_workers
unpark m = (
  record m { parker = dec_parked_workers m.parker; parked = m.parked - 1 },
  if is_fork m.goals.current then return_should_exit else return_ok,
)

-- The worker's answer when it is the last one. `on_last_parked` has changed the goals.
unfoldable pub after_last_parked :
    LastParkedResult → WorkerMonitor → WorkerMonitor × Then × Option Notify
unfolding notify_work_available
after_last_parked park_self m = (m, wait, none)
after_last_parked wake_self m = let (m', t) = unpark m in (m', t, none)
after_last_parked wake_all m = let (m', t) = unpark m in (m', t, some (notify_work_available true))

-- `park_and_wait` up to the wait, or to the end where the worker does not wait.
unfoldable pub park :
    (WorkerGoals → WorkerGoals × LastParkedResult)
    → WorkerMonitor
    → WorkerMonitor × Then × Option Notify
unfolding inc_parked_workers after_last_parked
park on_last_parked m =
    let (parker, all_parked) = inc_parked_workers m.parker in
    let m' = record m { parker = parker; parked = m.parked + 1 } in
    let (goals, result) = on_last_parked m.goals in
    if all_parked then after_last_parked result (record m' { goals = goals }) else (m', wait, none)

unfoldable pub on_all_workers_exited : WorkerMonitor → WorkerMonitor
on_all_workers_exited m = record m { goals = on_current_goal_completed m.goals }
