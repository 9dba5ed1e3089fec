-- ===== src/Scheduler/Parked/LastParked.antt =====
-- `on_last_parked` of src/scheduler/scheduler.rs as a whole.
use mmtk_core.Base.{
  ℕ, zero, suc, ◌≡◌, ◌≢◌, refl, false, Option, none, some, arith, Bool-cases, inl, inr, ◌∙◌,
}
use mmtk_core.Scheduler.Injector.{Injector}
use mmtk_core.Scheduler.Bucket.Work.{add_boxed_no_notify}
use mmtk_core.Scheduler.Goals.{
  WorkerGoal, gc, stop_for_fork, WorkerGoals, on_current_goal_completed,
}
use mmtk_core.Scheduler.Parked.{
  LastParkedResult, park_self, wake_self, wake_all, ok, Runtime, GcWorkScheduler,
  add_schedule_collection_packet, find_more_work_for_workers, on_gc_finished, respond_to_requests,
  on_last_parked, pursue_goal, continue_gc, ◌>>=◌,
}
use mmtk_core.Scheduler.Parked.Shape.{kept-IsShaped}
use mmtk_core.Scheduler.Parked.Answer.{respond_to_requests_cases}
use mmtk_core.Scheduler.Parked.Total.{
  IsSound, IsConsistent, find_more_work-IsSound, find_more_work-time, find_more_work-runtime,
}
use mmtk_core.Scheduler.Parked.Finished.{HasPause, AreCallsSafe, on_gc_finished-total}

module _ {W Q L D E : Type 0} (I : Injector W Q L D) (R : Runtime E) (schedule_collection : W) where
  abbrev Sched : Type 0
  Sched = GcWorkScheduler W Q L D E

  abbrev Sound : Sched → Type 0
  Sound = IsSound I R schedule_collection

  -- What the caller may rely on, whatever the answer.
  pub record Answered (r : Sched × WorkerGoals × LastParkedResult) : Type 0 where
    pub consistent : r.1.current ≢ some stop_for_fork → IsConsistent I R schedule_collection r.0 r.1
    pub parks_idle :
        r.2 ≡ park_self
        → (r.1.current ≡ none) × (r.1.gc_requested ≡ false) × (r.1.fork_requested ≡ false)
    pub wakes_for_gc : r.2 ≡ wake_self → r.1.current ≡ some gc

  packet-IsSound :
      (s : Sched) → Sound s → Sound (add_schedule_collection_packet I R schedule_collection s)
  unfolding add_schedule_collection_packet add_boxed_no_notify
  packet-IsSound s h = record {
    shaped =
        kept-IsShaped _ _
          (record { conditions = elim [ zero ↦ refl | suc j ↦ ground arith ]; queue_zero = refl })
          h.shaped;
    in_range = h.in_range;
  }

  packet-time :
      (s : Sched)
      → (add_schedule_collection_packet I R schedule_collection s).gc_start_time ≡ s.gc_start_time
  unfolding add_schedule_collection_packet
  packet-time s = refl

  Answered-gc :
      (s : Sched) (g : WorkerGoals)
      → Sound s
      → Answered (
        add_schedule_collection_packet I R schedule_collection
            (record s { gc_start_time = some (R.now s.runtime) }),
        record g { current = some gc; gc_requested = false },
        wake_self,
      )
  Answered-gc s g h =
      let s' : Sched = record s { gc_start_time = some (R.now s.runtime) } in
      record {
        consistent = λ ne. record {
          sound = packet-IsSound s' (record { shaped = h.shaped; in_range = h.in_range });
          not_exiting = ne;
          started = λ e. (R.now s.runtime, packet-time s');
          not_requested = λ e. refl;
          not_started = λ e. cc;
        };
        parks_idle = λ e. cc;
        wakes_for_gc = λ e. refl;
      }

  respond-total :
      (s : Sched) (g : WorkerGoals)
      → Sound s
      → g.current ≡ none
      → s.gc_start_time ≡ none
      → (r : Sched × WorkerGoals × LastParkedResult) × (respond_to_requests I R schedule_collection
            s g
          ≡ ok r)
        × Answered r
  respond-total s g h c t =
      let p = respond_to_requests_cases I R schedule_collection s g c t in
      elim (Bool-cases g.gc_requested) [
        | inl a ↦ (_, p.1 a, Answered-gc s g h)
        | inr a ↦ elim (Bool-cases g.fork_requested) [
          | inl b ↦ (
            _,
            p.2 a b,
            record {
              consistent = λ ne. absurd (ne refl);
              parks_idle = λ e. cc;
              wakes_for_gc = λ e. cc;
            },
          )
          | inr b ↦ (
            _,
            p.0 a b,
            record {
              consistent = λ ne. record {
                sound = h;
                not_exiting = ne;
                started = λ e. cc;
                not_requested = λ e. a;
                not_started = λ e. t;
              };
              parks_idle = λ e. (c, a, b);
              wakes_for_gc = λ e. cc;
            },
          )
        ]
      ]

  completed_idle : (g : WorkerGoals) → (on_current_goal_completed g).current ≡ none
  unfolding on_current_goal_completed
  completed_idle g = refl

  -- Before the end of a collection the plan has a pause.
  abbrev pub IsPaused : Sched → WorkerGoals → Type 0
  IsPaused s g =
      g.current ≡ some gc
      → (find_more_work_for_workers I R schedule_collection s).1 ≡ false
      → HasPause R s.runtime

  finish-total :
      (s : Sched) (g : WorkerGoals) (t : ℕ)
      → AreCallsSafe R
      → HasPause R s.runtime
      → Sound s
      → s.gc_start_time ≡ some t
      → (r : Sched × WorkerGoals × LastParkedResult) × ((on_gc_finished I R schedule_collection s
            >>= λ done.
                respond_to_requests I R schedule_collection done.0 (on_current_goal_completed g))
          ≡ ok r)
        × Answered r
  finish-total s g t safe pause h e =
      let (done, q, sound, time) =
        on_gc_finished-total I R schedule_collection s t safe pause h e in
      rw q (respond-total done.0 (on_current_goal_completed g) sound (completed_idle g) time)

  found_more :
      (s : Sched) (g : WorkerGoals) (t : ℕ)
      → Sound s
      → g.current ≡ some gc
      → g.gc_requested ≡ false
      → s.gc_start_time ≡ some t
      → Answered (s, g, wake_all)
  found_more s g t h c a e = record {
    consistent = λ ne. record {
      sound = h;
      not_exiting = ne;
      started = λ _. (t, e);
      not_requested = λ _. a;
      not_started = λ n. cc;
    };
    parks_idle = λ n. cc;
    wakes_for_gc = λ n. cc;
  }

  continue_gc-total :
      (s : Sched) (g : WorkerGoals)
      → AreCallsSafe R
      → IsPaused s g
      → IsConsistent I R schedule_collection s g
      → g.current ≡ some gc
      → (r : Sched × WorkerGoals × LastParkedResult) × (continue_gc I R schedule_collection s g
          ≡ ok r)
        × Answered r
  unfolding continue_gc
  continue_gc-total s g safe pause h c =
      let s' = (find_more_work_for_workers I R schedule_collection s).0 in
      let sound = find_more_work-IsSound I R schedule_collection s h.sound in
      let time = find_more_work-time I R schedule_collection s ∙ (h.started c).1 in
      simp (h.not_requested c)
        (elim (Bool-cases (find_more_work_for_workers I R schedule_collection s).1) [
          | inl f ↦ rw f (_, refl, found_more s' g (h.started c).0 sound c (h.not_requested c) time)
          | inr f ↦ rw f (
              finish-total s' g (h.started c).0 safe
                (rw (find_more_work-runtime I R schedule_collection s) (pause c f)) sound time)
        ])

  goal-total :
      (o : Option WorkerGoal) (s : Sched) (g : WorkerGoals)
      → g.current ≡ o
      → AreCallsSafe R
      → IsPaused s g
      → IsConsistent I R schedule_collection s g
      → (r : Sched × WorkerGoals × LastParkedResult) × (pursue_goal I R schedule_collection o s g
          ≡ ok r)
        × Answered r
  unfolding pursue_goal
  goal-total none s g c safe pause h = respond-total s g h.sound c (h.not_started c)
  goal-total (some gc) s g c safe pause h = continue_gc-total s g safe pause h c
  goal-total (some stop_for_fork) s g c safe pause h = absurd (h.not_exiting c)

  -- In a consistent state, where the calls into the plan, the trigger, the statistics and the VM do not
  -- panic by themselves and leave the current pause alone until it ends, and where the LXR plan has a
  -- current pause when no more work is found for a collection: the last parked worker does not panic,
  -- neither where it reads that pause nor elsewhere; it has an answer; unless the answer makes the
  -- workers exit for a fork, the state is consistent again; it goes to sleep only when no goal is
  -- pursued and none is requested; and it wakes alone only to start a collection.
  pub on_last_parked-total :
      (s : Sched) (g : WorkerGoals)
      → AreCallsSafe R
      → IsPaused s g
      → IsConsistent I R schedule_collection s g
      → (r : Sched × WorkerGoals × LastParkedResult) × (on_last_parked I R schedule_collection s g
          ≡ ok r)
        × Answered r
  unfolding on_last_parked
  on_last_parked-total s g safe pause h = goal-total g.current s g refl safe pause h
