-- ===== src/Scheduler/Parked/Total.antt =====
-- The calls that the last parked worker makes, src/scheduler/scheduler.rs.
use mmtk_core.Base.{
  ℕ, zero, suc, ◌<◌, ◌≡◌, ◌≢◌, refl, Bool, true, false, none, some, if◌then◌else◌, update, arith,
  Bool-cases, inl, inr,
}
use mmtk_core.Scheduler.Injector.{Injector}
use mmtk_core.Scheduler.Bucket.{WorkBucket, stage_count}
use mmtk_core.Scheduler.Bucket.Work.{swap_queue, swap_queue_prioritized}
use mmtk_core.Scheduler.Goals.{gc, stop_for_fork, WorkerGoals}
use mmtk_core.Scheduler.Core.{schedule_sentinels}
use mmtk_core.Scheduler.Core.Update.{update_buckets-progress}
use mmtk_core.Scheduler.Parked.{
  ok, Runtime, GcWorkScheduler, find_more_work_for_workers, install_queue, install_prioritized,
  put_bucket, has_designated_work,
}
use mmtk_core.Scheduler.Parked.Shape.{
  IsShaped, KeepsShape, kept-IsShaped, schedule_sentinels-KeepsShape, update_buckets-IsShaped,
}

module _ {W Q L D E : Type 0} (I : Injector W Q L D) (R : Runtime E) (schedule_collection : W) where
  abbrev pub State : Type 0
  State = GcWorkScheduler W Q L D E

  -- What the scheduler's own state keeps between two calls.
  pub record IsSound (s : State) : Type 0 where
    pub shaped : IsShaped s.work_buckets
    pub in_range : s.bucket_update_progress < stage_count

  -- What holds between two calls: the workers have not been asked to exit; a collection under way has
  -- a start time and there is no request for another one; without a goal there is no start time.
  pub record IsConsistent (s : State) (g : WorkerGoals) : Type 0 where
    pub sound : IsSound s
    pub not_exiting : g.current ≢ some stop_for_fork
    pub started : g.current ≡ some gc → (t : ℕ) × (s.gc_start_time ≡ some t)
    pub not_requested : g.current ≡ some gc → g.gc_requested ≡ false
    pub not_started : g.current ≡ none → s.gc_start_time ≡ none

  -- `P` of the state that a test chooses.
  choose :
      (P : State → Type 0) (b : Bool) (x y : State × Bool)
      → P x.0
      → P y.0
      → P (if b then x else y).0
  choose P true x y hx hy = hx
  choose P false x y hx hy = hy

  sentinels-IsShaped :
      (bs : ℕ → WorkBucket W Q) → IsShaped bs → IsShaped (schedule_sentinels I bs).0
  sentinels-IsShaped bs h = kept-IsShaped bs _ (schedule_sentinels-KeepsShape I bs) h

  pub find_more_work-IsSound :
      (s : State) → IsSound s → IsSound (find_more_work_for_workers I R schedule_collection s).0
  unfolding find_more_work_for_workers
  find_more_work-IsSound s h =
      let shaped = sentinels-IsShaped s.work_buckets h.shaped in
      choose IsSound (has_designated_work I R schedule_collection s.workers) _ _ h (
        choose IsSound (schedule_sentinels I s.work_buckets).1 _ _
          (record { shaped = shaped; in_range = h.in_range })
          (record {
            shaped = update_buckets-IsShaped I _ _ h.in_range shaped;
            in_range = update_buckets-progress I _ _ shaped.wired h.in_range;
          }))

  pub find_more_work-time :
      (s : State)
      → (find_more_work_for_workers I R schedule_collection s).0.gc_start_time ≡ s.gc_start_time
  unfolding find_more_work_for_workers
  find_more_work-time s =
      choose (λ t. t.gc_start_time ≡ s.gc_start_time)
        (has_designated_work I R schedule_collection s.workers) _ _ refl
        (choose (λ t. t.gc_start_time ≡ s.gc_start_time) (schedule_sentinels I s.work_buckets).1 _ _
          refl refl)

  pub find_more_work-runtime :
      (s : State) → (find_more_work_for_workers I R schedule_collection s).0.runtime ≡ s.runtime
  unfolding find_more_work_for_workers
  find_more_work-runtime s =
      choose (λ t. t.runtime ≡ s.runtime) (has_designated_work I R schedule_collection s.workers) _
        _ refl
        (choose (λ t. t.runtime ≡ s.runtime) (schedule_sentinels I s.work_buckets).1 _ _ refl refl)

  swap-KeepsShape :
      (q : Q) (bs : ℕ → WorkBucket W Q) → KeepsShape bs (update bs 0 (swap_queue q (bs 0)).1)
  unfolding swap_queue
  swap-KeepsShape q bs = record {
    conditions = elim [ zero ↦ refl | suc j ↦ ground arith ];
    queue_zero = refl;
  }

  pub install_queue-IsSound :
      (q : Q) (s : State) → IsSound s → IsSound (install_queue I R schedule_collection q s)
  unfolding install_queue
  install_queue-IsSound q s h = elim (Bool-cases (I.is_empty q)) [
    | inl e ↦ rw e h
    | inr e ↦ rw e (record {
      shaped = kept-IsShaped _ _ (swap-KeepsShape q s.work_buckets) h.shaped;
      in_range = h.in_range;
    })
  ]

  pub install_queue-time :
      (q : Q) (s : State)
      → (install_queue I R schedule_collection q s).gc_start_time ≡ s.gc_start_time
  unfolding install_queue
  install_queue-time q s = ground arith

  -- The prioritized queue of `Unconstrained` is there, so the swap succeeds.
  swapped :
      (p x : Q) (s : State)
      → IsSound s
      → (s.work_buckets 0).prioritized_queue ≡ some x
      → (t : State) × (put_bucket I R schedule_collection
            (swap_queue_prioritized p (s.work_buckets 0))
            s
          ≡ ok t)
        × IsSound t
        × (t.gc_start_time ≡ s.gc_start_time)
  unfolding put_bucket swap_queue_prioritized
  swapped p x s h e =
      let b = record (s.work_buckets 0) { prioritized_queue = some p } in
      let w = h.shaped.wired in
      (
        record s { work_buckets = update s.work_buckets 0 b },
        ground arith,
        record {
          shaped = record {
            wired = record { first = w.first; later = λ i lo hi. ground (arith, w.later i lo hi) };
            prioritized = (p, refl);
          };
          in_range = h.in_range;
        },
        refl,
      )

  pub install_prioritized-total :
      (p : Q) (s : State)
      → IsSound s
      → (t : State) × (install_prioritized I R schedule_collection p s ≡ ok t)
        × IsSound t
        × (t.gc_start_time ≡ s.gc_start_time)
  unfolding install_prioritized
  install_prioritized-total p s h = elim (Bool-cases (I.is_empty p)) [
    | inl e ↦ rw e (s, refl, h, refl)
    | inr e ↦ rw e (swapped p h.shaped.prioritized.0 s h h.shaped.prioritized.1)
  ]
