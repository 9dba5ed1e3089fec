-- ===== src/Scheduler/Core.antt =====
-- `GCWorkScheduler` of src/scheduler/scheduler.rs: its state, its construction and the opening of
-- work buckets. `work_buckets` is an `EnumMap`: a function of the stage's number.
pub mod Drained
pub mod Opened
pub mod Rounds
pub mod Order
pub mod Finish
pub mod Wiring
pub mod Update
use mmtk_core.Base.{
  ℕ, zero, suc, ◌+◌, ◌-◌, ◌==◌, Bool, true, false, not, ◌&&◌, ◌||◌, Option, none, some, List, [],
  ◌∷◌, ◌++◌, if◌then◌else◌, update, all_range,
}
use mmtk_core.Scheduler.Injector.{Injector}
use mmtk_core.Scheduler.Bucket.{WorkBucket, stage_count, first_stw_stage}
use mmtk_core.Scheduler.Bucket.Work.{
  new, enable_prioritized_queue, set_open_condition, set_as_enabled, activate, deactivate, is_empty,
  is_drained, maybe_schedule_sentinel,
}
use mmtk_core.Scheduler.Bucket.Work

-- `Unconstrained` has number 0.
abbrev pub is_unconstrained : ℕ → Bool
is_unconstrained i = i == 0

-- The stages from `first` to `first + k - 1`: the elements of `open_stages`, in order.
abbrev pub stages_from : ℕ → ℕ → List ℕ
stages_from first zero = []
stages_from first (suc k) = first ∷ stages_from (suc first) k

module _ {W Q L D : Type 0} (I : Injector W Q L D) where
  abbrev Buckets : Type 0
  Buckets = ℕ → WorkBucket W Q

  -- The buckets before their open conditions are set.
  unfoldable pub initial_buckets : Buckets
  unfolding new enable_prioritized_queue
  initial_buckets =
      let bs : Buckets = λ i. new I (is_unconstrained i) in
      update bs 0 (enable_prioritized_queue I (bs 0))

  -- The loop of `new` over the stages from `i` on, `k` of them left.
  unfoldable pub set_open_conditions : ℕ → ℕ → List ℕ → Buckets → Buckets
  unfolding set_open_condition
  set_open_conditions zero i open_stages bs = bs
  set_open_conditions (suc k) i open_stages bs =
      let stages =
        if not (is_unconstrained i) && not (i == first_stw_stage)
        then open_stages ++ i ∷ []
        else open_stages in
      let bs' =
        if not (is_unconstrained i) && not (i == first_stw_stage)
        then update bs i (set_open_condition open_stages (bs i))
        else bs in
      set_open_conditions k (suc i) stages bs'

  unfoldable pub new_buckets : Buckets
  unfolding set_open_conditions initial_buckets
  new_buckets = set_open_conditions stage_count 0 (first_stw_stage ∷ []) initial_buckets

  unfoldable pub are_buckets_drained : Buckets → List ℕ → Bool
  unfolding is_drained
  are_buckets_drained bs [] = true
  are_buckets_drained bs (s ∷ ss) =
      (is_drained I (bs s) || (bs s).disable) && are_buckets_drained bs ss

  unfoldable pub all_buckets_empty : Buckets → Bool
  unfolding all_range is_empty
  all_buckets_empty bs = all_range stage_count 0 (λ i. is_empty I (bs i))

  -- What the open condition of a bucket says now, if it has one.
  unfoldable pub can_open : Buckets → Option (List ℕ) → Option Bool
  unfolding are_buckets_drained
  can_open bs none = none
  can_open bs (some stages) = some (are_buckets_drained bs stages)

  -- `schedule_sentinels`, from stage `i` on with `k` stages left.
  unfoldable pub schedule_sentinels_from : ℕ → ℕ → Buckets → Bool → Buckets × Bool
  unfolding maybe_schedule_sentinel
  schedule_sentinels_from zero i bs new_packets = (bs, new_packets)
  schedule_sentinels_from (suc k) i bs new_packets =
      let step = if (bs i).active then maybe_schedule_sentinel I (bs i) else (bs i, false) in
      schedule_sentinels_from k (suc i) (update bs i step.0) (if step.1 then true else new_packets)

  unfoldable pub schedule_sentinels : Buckets → Buckets × Bool
  unfolding schedule_sentinels_from
  schedule_sentinels bs = schedule_sentinels_from stage_count 0 bs false

  -- The variables of the loop of `update_buckets`.
  pub record Opening : Type 0 where
    pub buckets : Buckets
    pub buckets_updated : Bool
    pub new_packets : Bool
    pub new_progress : ℕ

  -- A bucket that has just been opened: `!is_drained()`, or else its sentinel is scheduled.
  unfoldable pub find_packets : Bool → WorkBucket W Q → WorkBucket W Q × Bool
  unfolding is_drained maybe_schedule_sentinel
  find_packets new_packets b =
      if new_packets || not (is_drained I b) then (b, true) else maybe_schedule_sentinel I b

  -- The end of a round, with the result of `find_packets`: the second part says whether to break.
  unfoldable pub opened : ℕ → WorkBucket W Q × Bool → Opening → Opening × Bool
  opened i (b, found) s = (
    record {
      buckets = update s.buckets i b;
      buckets_updated = true;
      new_packets = found;
      new_progress = if found then i else s.new_progress;
    },
    found,
  )

  -- One round of the loop, at stage `i`; tracing and timers are left out.
  unfoldable pub open_stage : ℕ → Opening → Opening × Bool
  unfolding can_open find_packets opened Work.update
  open_stage i s =
      let b = s.buckets i in
      let tried = Work.update (can_open s.buckets b.can_open) b in
      if is_unconstrained i || b.disable || b.active || not tried.1
      then (s, false)
      else opened i (find_packets s.new_packets tried.0) s

  unfoldable pub open_stages_from : ℕ → ℕ → Opening → Opening
  unfolding open_stage
  open_stages_from zero i s = s
  open_stages_from (suc k) i s =
      let step = open_stage i s in
      let rest = open_stages_from k (suc i) step.0 in if step.1 then step.0 else rest

  -- The buckets, the new `bucket_update_progress`, and whether there is new work.
  unfoldable pub update_buckets : Buckets → ℕ → Buckets × ℕ × Bool
  unfolding open_stages_from
  update_buckets bs progress =
      let start = progress + 1 in
      let s = open_stages_from (stage_count - start) start (record {
        buckets = bs;
        buckets_updated = false;
        new_packets = false;
        new_progress = stage_count;
      }) in
      let done = s.buckets_updated && s.new_packets in
      (s.buckets, if done then s.new_progress else 0, done)

  -- `bkt.deactivate(); bkt.set_as_enabled();`
  unfoldable pub close : WorkBucket W Q → WorkBucket W Q
  unfolding deactivate set_as_enabled
  close b = set_as_enabled (deactivate b)

  -- Both also store 0 in `bucket_update_progress`.
  unfoldable pub deactivate_all : Buckets → Buckets × ℕ
  unfolding close
  deactivate_all bs = (λ i. if is_unconstrained i then bs i else close (bs i), 0)

  unfoldable pub reset_state : Buckets → Buckets × ℕ
  unfolding close
  reset_state bs =
      (λ i. if is_unconstrained i || i == first_stw_stage then bs i else close (bs i), 0)
