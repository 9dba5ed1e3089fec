-- ===== src/Scheduler/Monitor/Steps.antt =====
-- Workers and mutators over one `WorkerMonitor`, interleaved in any order,
-- src/scheduler/worker_monitor.rs.
use mmtk_core.Base.{
  ℕ, zero, suc, ◌+◌, ◌≤◌, ◌<◌, ◌≡◌, ◌≢◌, refl, Bool, true, false, update, arith, sym, count_below,
  count_below-update, count_below-lt, count_below-pos, count_below-all, count_below-le, update_ne,
}
use mmtk_core.Scheduler.Goals.{WorkerGoal, WorkerGoals}
use mmtk_core.Scheduler.Parked.{LastParkedResult}
use mmtk_core.Scheduler.Monitor.{
  WorkerParker, WorkerMonitor, new, make_request, Then, wait, return_ok, return_should_exit, park,
  unpark, inc_parked_workers, on_all_workers_exited,
}

-- A worker runs packets, waits on the condition variable, or has left its loop.
pub data WorkerState : Type 0 where
  working waiting exited : WorkerState

abbrev pub is_waiting : WorkerState → Bool
is_waiting waiting = true
is_waiting _ = false

abbrev pub state_after : Then → WorkerState
state_after wait = waiting
state_after return_ok = working
state_after return_should_exit = exited

pub record System : Type 0 where
  pub monitor : WorkerMonitor
  pub worker : ℕ → WorkerState

abbrev pub Callback : Type 0
Callback = WorkerGoals → WorkerGoals × LastParkedResult

unfoldable pub park_worker : Callback → ℕ → System → System
park_worker f i s =
    let (m, t, n) = park f s.monitor in
    record { monitor = m; worker = update s.worker i (state_after t) }

unfoldable pub wake_worker : ℕ → System → System
wake_worker i s =
    let (m, t) = unpark s.monitor in
    record { monitor = m; worker = update s.worker i (state_after t) }

-- A wake-up needs no notification: the condition variable may wake a worker spuriously. Every run of
-- the callback may differ, since it reads the scheduler's state.
pub data Step (n : ℕ) (s : System) : System → Type 0 where
  parks : (f : Callback) (i : ℕ) → i < n → s.worker i ≡ working → Step n s (park_worker f i s)
  wakes : (i : ℕ) → i < n → s.worker i ≡ waiting → Step n s (wake_worker i s)
  requests : (goal : WorkerGoal) → Step n s (record s { monitor = (make_request goal s.monitor).0 })
  all_exited :
      ((i : ℕ) → i < n → s.worker i ≡ exited)
      → Step n s (record s { monitor = on_all_workers_exited s.monitor })
  respawns :
      (i : ℕ)
      → i < n
      → s.worker i ≡ exited
      → Step n s (record s { worker = update s.worker i working })

pub data Reach (n : ℕ) : System → Type 0 where
  start : Reach n (record { monitor = new n; worker = λ _. working })
  later : {s t : System} → Reach n s → Step n s t → Reach n t

-- The counters agree with the workers that wait.
pub record IsCounted (n : ℕ) (s : System) : Type 0 where
  pub workers : s.monitor.parker.worker_count ≡ n
  pub waiting_workers : s.monitor.parker.parked_workers ≡ count_below is_waiting n s.worker
  pub atomic : s.monitor.parked ≡ s.monitor.parker.parked_workers

count_below-none : (n : ℕ) → count_below is_waiting n (λ _. working) ≡ 0
unfolding count_below
count_below-none zero = refl
count_below-none (suc n) = omega (arith, count_below-none n)

start-IsCounted : (n : ℕ) → IsCounted n (record { monitor = new n; worker = λ _. working })
unfolding new
start-IsCounted n = record {
  workers = refl;
  waiting_workers = sym (count_below-none n);
  atomic = refl;
}

parks-IsCounted :
    (n : ℕ) (s : System) (f : Callback) (i : ℕ)
    → i < n
    → s.worker i ≡ working
    → IsCounted n s
    → IsCounted n (park_worker f i s)
unfolding park_worker park unpark
parks-IsCounted n s f i lt e h = ground (
  arith,
  count_below-update is_waiting n s.worker i waiting,
  count_below-update is_waiting n s.worker i working,
  count_below-update is_waiting n s.worker i exited,
)

wakes-IsCounted :
    (n : ℕ) (s : System) (i : ℕ)
    → i < n
    → s.worker i ≡ waiting
    → IsCounted n s
    → IsCounted n (wake_worker i s)
unfolding wake_worker unpark
wakes-IsCounted n s i lt e h = ground (
  arith,
  count_below-pos is_waiting n s.worker i,
  count_below-update is_waiting n s.worker i working,
  count_below-update is_waiting n s.worker i exited,
)

respawns-IsCounted :
    (n : ℕ) (s : System) (i : ℕ)
    → i < n
    → s.worker i ≡ exited
    → IsCounted n s
    → IsCounted n (record s { worker = update s.worker i working })
respawns-IsCounted n s i lt e h = ground (arith, count_below-update is_waiting n s.worker i working)

requests-IsCounted :
    (n : ℕ) (s : System) (goal : WorkerGoal)
    → IsCounted n s
    → IsCounted n (record s { monitor = (make_request goal s.monitor).0 })
unfolding make_request
requests-IsCounted n s goal h = record {
  workers = h.workers;
  waiting_workers = h.waiting_workers;
  atomic = h.atomic;
}

exits-IsCounted :
    (n : ℕ) (s : System)
    → IsCounted n s
    → IsCounted n (record s { monitor = on_all_workers_exited s.monitor })
unfolding on_all_workers_exited
exits-IsCounted n s h = record {
  workers = h.workers;
  waiting_workers = h.waiting_workers;
  atomic = h.atomic;
}

Step-IsCounted : {n : ℕ} {s t : System} → Step n s t → IsCounted n s → IsCounted n t
Step-IsCounted {n} {s} (parks f i lt e) h = parks-IsCounted n s f i lt e h
Step-IsCounted {n} {s} (wakes i lt e) h = wakes-IsCounted n s i lt e h
Step-IsCounted {n} {s} (requests goal) h = requests-IsCounted n s goal h
Step-IsCounted {n} {s} (all_exited gone) h = exits-IsCounted n s h
Step-IsCounted {n} {s} (respawns i lt e) h = respawns-IsCounted n s i lt e h

-- In every reachable state of `n` workers, with any callback and any interleaving of parking, waking,
-- requesting, exiting and respawning, the counter of parked workers is the number of workers that
-- wait, the atomic counter equals it, and the number of workers is `n`.
pub Reach-IsCounted : {n : ℕ} {s : System} → Reach n s → IsCounted n s
Reach-IsCounted {n} start = start-IsCounted n
Reach-IsCounted (later r st) = Step-IsCounted st (Reach-IsCounted r)

inc-all :
    (p : WorkerParker) → (inc_parked_workers p).1 ≡ true → p.parked_workers + 1 ≡ p.worker_count
unfolding inc_parked_workers
inc-all p h = ground arith

-- A worker that parks in a reachable state finds itself the last one only when every other worker
-- waits; so the callback never runs beside a worker that runs packets.
pub last_parked-alone :
    {n : ℕ} {s : System} (i : ℕ)
    → Reach n s
    → i < n
    → s.worker i ≡ working
    → (inc_parked_workers s.monitor.parker).1 ≡ true
    → (j : ℕ) → j < n
    → i ≢ j
    → s.worker j ≡ waiting
last_parked-alone {n} {s} i r lt e last j below ne =
    let h = Reach-IsCounted r in
    let all : count_below is_waiting n (update s.worker i waiting) ≡ n =
      ground
        (arith, inc-all s.monitor.parker, count_below-update is_waiting n s.worker i waiting) in
    let w = count_below-all is_waiting n (update s.worker i waiting) all j below in
    is_waiting-eq (s.worker j) (rw (update_ne s.worker i j waiting ne) at w)
  where
    is_waiting-eq : (w : WorkerState) → is_waiting w ≡ true → w ≡ waiting
    is_waiting-eq working q = cc
    is_waiting-eq waiting q = refl
    is_waiting-eq exited q = cc

-- The assertion of `inc_parked_workers` holds: in a reachable state, a worker that is about to park
-- finds the counter below the number of workers.
pub parked_workers-below :
    {n : ℕ} {s : System} (i : ℕ)
    → Reach n s
    → i < n
    → s.worker i ≡ working
    → s.monitor.parker.parked_workers < s.monitor.parker.worker_count
parked_workers-below {n} {s} i r lt e =
    let h = Reach-IsCounted r in ground (arith, h, count_below-lt is_waiting n s.worker i)

-- The assertions of `dec_parked_workers` hold: in a reachable state, a worker that is about to unpark
-- finds the counter positive and at most the number of workers.
pub parked_workers-positive :
    {n : ℕ} {s : System} (i : ℕ)
    → Reach n s
    → i < n
    → s.worker i ≡ waiting
    → (0 < s.monitor.parker.parked_workers)
      × (s.monitor.parker.parked_workers ≤ s.monitor.parker.worker_count)
parked_workers-positive {n} {s} i r lt e =
    let h = Reach-IsCounted r in
    ground (arith, h, count_below-pos is_waiting n s.worker i, count_below-le is_waiting n s.worker)
