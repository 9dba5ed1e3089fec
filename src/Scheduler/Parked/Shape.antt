-- ===== src/Scheduler/Parked/Shape.antt =====
-- The parts of the scheduler's state that the last parked worker keeps, src/scheduler/scheduler.rs.
use mmtk_core.Base.{
  ℕ, zero, suc, ◌<◌, ◌≡◌, refl, Bool, true, false, some, if◌then◌else◌, update, ℕ_discrete, arith,
  ap, ◌∙◌, update_self, update_ne,
}
use mathlib.Core.Path.{subst}
use mmtk_core.Scheduler.Injector.{Injector}
use mmtk_core.Scheduler.Bucket.{WorkBucket, stage_count}
use mmtk_core.Scheduler.Bucket.Work.{maybe_schedule_sentinel}
use mmtk_core.Scheduler.Core.{
  schedule_sentinels, schedule_sentinels_from, update_buckets, deactivate_all,
}
use mmtk_core.Scheduler.Core.Update.{update_buckets-zero, update_buckets-IsWired}
use mmtk_core.Scheduler.Core.Order.{IsWired}

module _ {W Q : Type 0} where
  -- The open conditions are as built, and `Unconstrained` has a prioritized queue.
  pub record IsShaped (bs : ℕ → WorkBucket W Q) : Type 0 where
    pub wired : IsWired bs
    pub prioritized : (q : Q) × ((bs 0).prioritized_queue ≡ some q)

  pub record KeepsShape (bs cs : ℕ → WorkBucket W Q) : Type 0 where
    pub conditions : (j : ℕ) → (cs j).can_open ≡ (bs j).can_open
    pub queue_zero : (cs 0).prioritized_queue ≡ (bs 0).prioritized_queue

  pub kept-IsShaped : (bs cs : ℕ → WorkBucket W Q) → KeepsShape bs cs → IsShaped bs → IsShaped cs
  kept-IsShaped bs cs k h = record {
    wired = record {
      first = k.conditions 1 ∙ h.wired.first;
      later = λ i lo hi. k.conditions i ∙ h.wired.later i lo hi;
    };
    prioritized = (h.prioritized.0, k.queue_zero ∙ h.prioritized.1);
  }

module _ {W Q L D : Type 0} (I : Injector W Q L D) where
  at_one :
      {A : Type 0} (f : WorkBucket W Q → A)
      → ((b : WorkBucket W Q) → f (maybe_schedule_sentinel I b).0 ≡ f b)
      → (i : ℕ) (bs : ℕ → WorkBucket W Q) (j : ℕ)
      → f (
          update bs i
            (if (bs i).active then maybe_schedule_sentinel I (bs i) else (bs i, false)).0
            j)
        ≡ f (bs j)
  at_one f keep i bs j = elim (ℕ_discrete i j) [
    | yes e ↦
        subst
          (λ j.
            f (
              update bs i
                (if (bs i).active then maybe_schedule_sentinel I (bs i) else (bs i, false)).0 j)
            ≡ f (bs j))
          e (ap f (update_self bs i _) ∙ one_bucket (bs i).active)
    | no n ↦ ap f (update_ne bs i j _ n)
  ]
    where
      one_bucket :
          (a : Bool)
          → f (if a then maybe_schedule_sentinel I (bs i) else (bs i, false)).0 ≡ f (bs i)
      one_bucket true = keep (bs i)
      one_bucket false = refl

  -- What scheduling a sentinel keeps of a bucket, it keeps of all buckets.
  sentinels_from-keeps :
      {A : Type 0} (f : WorkBucket W Q → A)
      → ((b : WorkBucket W Q) → f (maybe_schedule_sentinel I b).0 ≡ f b)
      → (k i : ℕ) (bs : ℕ → WorkBucket W Q) (n : Bool) (j : ℕ)
      → f ((schedule_sentinels_from I k i bs n).0 j) ≡ f (bs j)
  unfolding schedule_sentinels_from
  sentinels_from-keeps f keep zero i bs n j = refl
  sentinels_from-keeps f keep (suc k) i bs n j =
      sentinels_from-keeps f keep k (suc i) _ _ j ∙ at_one f keep i bs j

  sentinel-prioritized :
      (b : WorkBucket W Q) → (maybe_schedule_sentinel I b).0.prioritized_queue ≡ b.prioritized_queue
  unfolding maybe_schedule_sentinel
  sentinel-prioritized b = ground arith

  sentinel-can_open : (b : WorkBucket W Q) → (maybe_schedule_sentinel I b).0.can_open ≡ b.can_open
  unfolding maybe_schedule_sentinel
  sentinel-can_open b = ground arith

  pub schedule_sentinels-KeepsShape :
      (bs : ℕ → WorkBucket W Q) → KeepsShape bs (schedule_sentinels I bs).0
  unfolding schedule_sentinels
  schedule_sentinels-KeepsShape bs = record {
    conditions =
        λ j. sentinels_from-keeps (λ b. b.can_open) sentinel-can_open stage_count 0 bs false j;
    queue_zero =
        sentinels_from-keeps (λ b. b.prioritized_queue) sentinel-prioritized stage_count 0 bs false
          0;
  }

  pub update_buckets-IsShaped :
      (bs : ℕ → WorkBucket W Q) (p : ℕ)
      → p < stage_count
      → IsShaped bs
      → IsShaped (update_buckets I bs p).0
  update_buckets-IsShaped bs p hp h = record {
    wired = update_buckets-IsWired I bs p h.wired hp;
    prioritized = (
      h.prioritized.0,
      ap (λ (b : WorkBucket W Q). b.prioritized_queue) (update_buckets-zero I bs p hp)
          ∙ h.prioritized.1,
    );
  }

  pub deactivate_all-KeepsShape : (bs : ℕ → WorkBucket W Q) → KeepsShape bs (deactivate_all I bs).0
  unfolding deactivate_all
  deactivate_all-KeepsShape bs = record { conditions = λ j. ground arith; queue_zero = refl }
