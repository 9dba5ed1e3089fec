-- ===== src/Tests/Monitor.antt =====
-- Two workers and a request, src/scheduler/worker_monitor.rs.
use mmtk_core.Base.{◌≡◌, refl, true, arith}
use mmtk_core.Scheduler.Goals.{gc}
use mmtk_core.Scheduler.Parked.{park_self}
use mmtk_core.Scheduler.Monitor.{new, make_request, park, inc_parked_workers}
use mmtk_core.Scheduler.Monitor.Steps.{
  System, working, waiting, park_worker, parks, requests, Reach, start, later, IsCounted,
  Reach-IsCounted, Callback,
}

abbrev keep_parked : Callback
keep_parked g = (g, park_self)

abbrev at_start : System
at_start = record { monitor = new 2; worker = λ _. working }

-- Worker 1 waits.
abbrev one_waits : System
one_waits = park_worker keep_parked 1 at_start

abbrev one_requested : System
one_requested = record one_waits { monitor = (make_request gc one_waits.monitor).0 }

abbrev both_wait : System
both_wait = park_worker keep_parked 0 one_requested

Reach-one : Reach 2 one_requested
Reach-one = later (later start (parks keep_parked 1 (omega arith) refl)) (requests gc)

zero_works : one_requested.worker 0 ≡ working
unfolding park_worker park new inc_parked_workers
zero_works = refl

one_is_waiting : one_requested.worker 1 ≡ waiting
unfolding park_worker park new inc_parked_workers
one_is_waiting = refl

last : (inc_parked_workers one_requested.monitor.parker).1 ≡ true
unfolding park_worker park new inc_parked_workers make_request
last = refl

Reach-both : Reach 2 both_wait
Reach-both = later Reach-one (parks keep_parked 0 (omega arith) zero_works)

Reach-IsCounted_example : IsCounted 2 both_wait
Reach-IsCounted_example = Reach-IsCounted Reach-both
