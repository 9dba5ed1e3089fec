-- ===== src/Scheduler/Poll.antt =====
-- How a worker looks for a packet: `poll_schedulable_work_once` of src/scheduler/scheduler.rs.
pub mod Nothing
use mmtk_core.Base.{
  ℕ, zero, suc, Bool, true, false, Option, none, some, List, [], ◌∷◌, if◌then◌else◌, update,
}
use mmtk_core.Scheduler.Injector.{Injector, Steal}
use mmtk_core.Scheduler.Bucket.{WorkBucket, stage_count}
use mmtk_core.Scheduler.Bucket.Work.{poll}

-- What the worker sees: the packets designated to it, its local queue, the buckets, and the local
-- queues of the other workers, in the order of their ordinals.
pub record View (W Q L D : Type 0) : Type 0 where
  pub designated_work : D
  pub local_work_buffer : L
  pub work_buckets : ℕ → WorkBucket W Q
  pub stealers : List L

module _ {W Q L D : Type 0} (I : Injector W Q L D) where
  -- The loop over the buckets, with `k` of them left from number `i` on: a packet, the buckets, the
  -- local queue, and whether to retry.
  unfoldable pub poll_bucket_on :
      Steal W
      → (ℕ → WorkBucket W Q)
      → L
      → Bool
      → (Bool → Option W × (ℕ → WorkBucket W Q) × L × Bool)
      → Option W × (ℕ → WorkBucket W Q) × L × Bool
  poll_bucket_on (Steal.success w) bs l should_retry rest = (some w, bs, l, should_retry)
  poll_bucket_on Steal.retry bs l should_retry rest = rest true
  poll_bucket_on Steal.empty bs l should_retry rest = rest should_retry

  unfoldable pub poll_buckets :
      ℕ → ℕ → (ℕ → WorkBucket W Q) → L → Bool → Option W × (ℕ → WorkBucket W Q) × L × Bool
  unfolding poll_bucket_on
  poll_buckets zero i bs l should_retry = (none, bs, l, should_retry)
  poll_buckets (suc k) i bs l should_retry =
      let p = poll I (bs i) l in
      poll_bucket_on p.0 (update bs i p.1) p.2 should_retry
        (poll_buckets k (suc i) (update bs i p.1) p.2)

  -- The loop over the other workers.
  unfoldable pub steal_on :
      Steal W → L → List L → Bool → (Bool → Option W × List L × Bool) → Option W × List L × Bool
  steal_on (Steal.success w) l ls should_retry rest = (some w, l ∷ ls, should_retry)
  steal_on Steal.retry l ls should_retry rest = let r = rest true in (r.0, l ∷ r.1, r.2)
  steal_on Steal.empty l ls should_retry rest = let r = rest should_retry in (r.0, l ∷ r.1, r.2)

  unfoldable pub steal_from : List L → Bool → Option W × List L × Bool
  unfolding steal_on
  steal_from [] should_retry = (none, [], should_retry)
  steal_from (l ∷ ls) should_retry =
      steal_on (I.steal_local l).0 (I.steal_local l).1 ls should_retry (steal_from ls)

  unfoldable pub answer : Option W → Bool → Steal W
  answer (some w) should_retry = Steal.success w
  answer none should_retry = if should_retry then Steal.retry else Steal.empty

  unfoldable pub after_buckets :
      Option W × (ℕ → WorkBucket W Q) × L × Bool → View W Q L D → Steal W × View W Q L D
  unfolding steal_from answer
  after_buckets (some w, bs, l, should_retry) v =
      (Steal.success w, record v { work_buckets = bs; local_work_buffer = l })
  after_buckets (none, bs, l, should_retry) v =
      let (found, stealers, retry) = steal_from v.stealers should_retry in
      (
        answer found retry,
        record v { work_buckets = bs; local_work_buffer = l; stealers = stealers },
      )

  unfoldable pub after_designated : Option W × D → View W Q L D → Steal W × View W Q L D
  unfolding after_buckets poll_buckets
  after_designated (some w, d) v = (Steal.success w, record v { designated_work = d })
  after_designated (none, d) v =
      after_buckets (poll_buckets stage_count 0 v.work_buckets v.local_work_buffer false)
        (record v { designated_work = d })

  unfoldable pub poll_schedulable_work_once : View W Q L D → Steal W × View W Q L D
  unfolding after_designated
  poll_schedulable_work_once v = after_designated (I.designated_pop v.designated_work) v
