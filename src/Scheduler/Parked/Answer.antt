-- ===== src/Scheduler/Parked/Answer.antt =====
-- The answers of the last parked worker, src/scheduler/scheduler.rs.
use mmtk_core.Base.{◌≡◌, refl, true, false, none, some, if◌then◌else◌, arith, Bool-cases, inl, inr}
use mmtk_core.Scheduler.Injector.{Injector}
use mmtk_core.Scheduler.Goals.{gc, stop_for_fork, WorkerGoals, poll_next_goal}
use mmtk_core.Scheduler.Parked.{
  park_self, wake_self, wake_all, ok, Runtime, GcWorkScheduler, add_schedule_collection_packet,
  respond_to_requests,
}

module _ {W Q L D E : Type 0} (I : Injector W Q L D) (R : Runtime E) (schedule_collection : W) where
  abbrev State : Type 0
  State = GcWorkScheduler W Q L D E

  respond_to_nothing :
      (s : State) (g : WorkerGoals)
      → g.current ≡ none
      → g.gc_requested ≡ false
      → g.fork_requested ≡ false
      → respond_to_requests I R schedule_collection s g ≡ ok (s, g, park_self)
  unfolding respond_to_requests poll_next_goal
  respond_to_nothing s g c a b = rw (c, a, b) refl

  respond_to_gc :
      (s : State) (g : WorkerGoals)
      → g.current ≡ none
      → s.gc_start_time ≡ none
      → g.gc_requested ≡ true
      → respond_to_requests I R schedule_collection s g
        ≡ ok (
          add_schedule_collection_packet I R schedule_collection
              (record s { gc_start_time = some (R.now s.runtime) }),
          record g { current = some gc; gc_requested = false },
          wake_self,
        )
  unfolding respond_to_requests poll_next_goal
  respond_to_gc s g c t a = ground arith

  respond_to_fork :
      (s : State) (g : WorkerGoals)
      → g.current ≡ none
      → g.gc_requested ≡ false
      → g.fork_requested ≡ true
      → respond_to_requests I R schedule_collection s g
        ≡ ok (s, record g { current = some stop_for_fork; fork_requested = false }, wake_all)
  unfolding respond_to_requests poll_next_goal
  respond_to_fork s g c a b = ground arith

  -- The three answers, by what is requested.
  pub respond_to_requests_cases :
      (s : State) (g : WorkerGoals)
      → g.current ≡ none
      → s.gc_start_time ≡ none
      → (g.gc_requested ≡ false
          → g.fork_requested ≡ false
          → respond_to_requests I R schedule_collection s g ≡ ok (s, g, park_self))
        × (g.gc_requested ≡ true
            → respond_to_requests I R schedule_collection s g
              ≡ ok (
                add_schedule_collection_packet I R schedule_collection
                    (record s { gc_start_time = some (R.now s.runtime) }),
                record g { current = some gc; gc_requested = false },
                wake_self,
              ))
        × (g.gc_requested ≡ false
            → g.fork_requested ≡ true
            → respond_to_requests I R schedule_collection s g
              ≡ ok (s, record g { current = some stop_for_fork; fork_requested = false }, wake_all))
  respond_to_requests_cases s g c t =
      (respond_to_nothing s g c, respond_to_gc s g c t, respond_to_fork s g c)

  -- When no goal is pursued and no collection has a start time: a requested collection goes first,
  -- takes its start time, clears only its own request, adds the packet that schedules it and wakes
  -- this worker; otherwise a requested fork becomes the goal and wakes all; with no request the worker
  -- parks and nothing changes.
  pub respond_to_requests_priority :
      (s : State) (g : WorkerGoals)
      → g.current ≡ none
      → s.gc_start_time ≡ none
      → respond_to_requests I R schedule_collection s g
        ≡ ok (
            if g.gc_requested
            then (
              add_schedule_collection_packet I R schedule_collection
                  (record s { gc_start_time = some (R.now s.runtime) }),
              record g { current = some gc; gc_requested = false },
              wake_self,
            )
            else if g.fork_requested
            then (s, record g { current = some stop_for_fork; fork_requested = false }, wake_all)
            else (s, g, park_self))
  respond_to_requests_priority s g c t =
      let h = respond_to_requests_cases s g c t in
      elim (Bool-cases g.gc_requested) [
        | inl a ↦ rw (h.1 a, a) refl
        | inr a ↦ elim (Bool-cases g.fork_requested) [
          | inl b ↦ rw (h.2 a b, a, b) refl
          | inr b ↦ rw (h.0 a b, a, b) refl
        ]
      ]
