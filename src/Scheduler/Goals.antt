-- ===== src/Scheduler/Goals.antt =====
-- `WorkerGoals` of src/scheduler/worker_goals.rs: the goals that mutators have requested and the one
-- that the workers pursue.
use mmtk_core.Base.{Bool, true, false, Option, none, some, if◌then◌else◌}

-- Listed from the highest priority to the lowest.
pub data WorkerGoal : Type 0 where
  gc stop_for_fork : WorkerGoal

-- `requests` is an `EnumMap<WorkerGoal, bool>`: one flag for each goal.
pub record WorkerGoals : Type 0 where
  pub current : Option WorkerGoal
  pub gc_requested : Bool
  pub fork_requested : Bool

-- `Default::default()`
abbrev pub default : WorkerGoals
default = record { current = none; gc_requested = false; fork_requested = false }

-- `self.requests[goal]`
unfoldable pub debug_is_requested : WorkerGoals → WorkerGoal → Bool
debug_is_requested g gc = g.gc_requested
debug_is_requested g stop_for_fork = g.fork_requested

-- `self.requests[goal] = b`
unfoldable pub store_request : WorkerGoals → WorkerGoal → Bool → WorkerGoals
store_request g gc b = record g { gc_requested = b }
store_request g stop_for_fork b = record g { fork_requested = b }

unfoldable pub set_request : WorkerGoals → WorkerGoal → WorkerGoals × Bool
unfolding debug_is_requested store_request
set_request g goal =
    if debug_is_requested g goal then (g, false) else (store_request g goal true, true)

-- One round of the loop of `poll_next_goal`, at one goal; `rest` is what the later rounds return.
unfoldable pub poll_goal :
    WorkerGoal → WorkerGoals × Option WorkerGoal → WorkerGoals → WorkerGoals × Option WorkerGoal
unfolding debug_is_requested store_request
poll_goal goal rest g =
    if debug_is_requested g goal
    then (record (store_request g goal false) { current = some goal }, some goal)
    else rest

-- The loop runs over the goals in the order of the enum.
unfoldable pub poll_next_goal : WorkerGoals → WorkerGoals × Option WorkerGoal
unfolding poll_goal
poll_next_goal g = poll_goal gc (poll_goal stop_for_fork (g, none) g) g

unfoldable pub on_current_goal_completed : WorkerGoals → WorkerGoals
on_current_goal_completed g = record g { current = none }
