-- ===== src/Scheduler/Core/Update.antt =====
-- `update_buckets` of src/scheduler/scheduler.rs: what a caller relies on.
use mmtk_core.Base.{
  ℕ, ◌+◌, ◌-◌, ◌≤◌, ◌<◌, ◌≡◌, refl, Bool, true, false, ◌||◌, ℕ_discrete, arith, Bool-cases, inl,
  inr, sym, ◌∙◌,
}
use mathlib.Core.Path.{subst}
use mmtk_core.Scheduler.Injector.{Injector}
use mmtk_core.Scheduler.Bucket.{WorkBucket, stage_count}
use mmtk_core.Scheduler.Bucket.Work.{is_empty, is_drained}
use mmtk_core.Scheduler.Core.{Opening, open_stages_from, update_buckets}
use mmtk_core.Scheduler.Core.Drained.{IsDone}
use mmtk_core.Scheduler.Core.Rounds.{Rounds, rounds, finish, skip, stop, pass}
use mmtk_core.Scheduler.Core.Order.{IsWired, InOrder, Hit, Rounds-Hit}
use mmtk_core.Scheduler.Core.Finish.{
  IsFinished, IsQuiet, Rounds-IsFinished, Rounds-InOrder, Rounds-IsWired,
}

module _ {W Q L D : Type 0} (I : Injector W Q L D) where
  abbrev Buckets : Type 0
  Buckets = ℕ → WorkBucket W Q

  -- The loop's result for one call.
  after : Buckets → ℕ → Opening I
  after bs p = open_stages_from I (stage_count - (p + 1)) (p + 1) (record {
    buckets = bs;
    buckets_updated = false;
    new_packets = false;
    new_progress = stage_count;
  })

  after-Rounds :
      (bs : Buckets) (p : ℕ)
      → p < stage_count
      → Rounds I
          (p + 1)
          (record {
            buckets = bs;
            buckets_updated = false;
            new_packets = false;
            new_progress = stage_count;
          })
          (after bs p)
  unfolding after
  after-Rounds bs p h = rounds I (stage_count - (p + 1)) (p + 1) _ (omega arith) refl

  update_buckets-buckets : (bs : Buckets) (p : ℕ) → (update_buckets I bs p).0 ≡ (after bs p).buckets
  unfolding after update_buckets
  update_buckets-buckets bs p = refl

  update_buckets-both :
      (bs : Buckets) (p : ℕ)
      → (after bs p).buckets_updated ≡ true
      → (update_buckets I bs p).2 ≡ false
      → (after bs p).new_packets ≡ false
  unfolding after update_buckets
  update_buckets-both bs p u h = ground arith

  update_buckets-packets :
      (bs : Buckets) (p : ℕ)
      → (update_buckets I bs p).2 ≡ true
      → ((after bs p).new_packets ≡ true) × ((update_buckets I bs p).1 ≡ (after bs p).new_progress)
  unfolding after update_buckets
  update_buckets-packets bs p h = ground arith

  -- The stages from 1 to `p` are open or disabled.
  abbrev pub IsPast : Buckets → ℕ → Type 0
  IsPast bs p = (j : ℕ) → 1 ≤ j → j ≤ p → ((bs j).active || (bs j).disable) ≡ true

  past-IsFinished :
      (bs : Buckets) (p : ℕ)
      → IsPast bs p
      → IsQuiet I bs
      → (j : ℕ) → 1 ≤ j
      → j < p + 1
      → IsFinished I (bs j)
  past-IsFinished bs p past q j lo hi = ground (arith, past j lo, q j)

  update_buckets-no_packets :
      (bs : Buckets) (p : ℕ)
      → IsWired bs
      → Rounds I
          (p + 1)
          (record {
            buckets = bs;
            buckets_updated = false;
            new_packets = false;
            new_progress = stage_count;
          })
          (after bs p)
      → (update_buckets I bs p).2 ≡ false
      → (after bs p).new_packets ≡ false
  update_buckets-no_packets bs p w rs h = elim (Bool-cases (after bs p).new_packets) [
    | inl e ↦ update_buckets-both bs p (Rounds-Hit I rs w e).updated h
    | inr e ↦ e
  ]

  -- If `update_buckets` reports no new work, then the collection is over: when the first
  -- stop-the-world stage is open, every open bucket is empty and has no sentinel, and the stages up to
  -- the recorded progress are open or disabled, then afterwards every stage after `Unconstrained` is
  -- disabled, or is open and empty with no sentinel left.
  pub update_buckets-IsFinished :
      (bs : Buckets) (p : ℕ)
      → IsWired bs
      → IsQuiet I bs
      → (bs 1).active ≡ true
      → p < stage_count
      → IsPast bs p
      → (update_buckets I bs p).2 ≡ false
      → (j : ℕ) → 1 ≤ j
      → j < stage_count
      → IsFinished I ((update_buckets I bs p).0 j)
  update_buckets-IsFinished bs p w q f hp past h =
      let rs = after-Rounds bs p hp in
      rw (update_buckets-buckets bs p) (
        Rounds-IsFinished I rs w q f (omega arith) (update_buckets-no_packets bs p w rs h)
          (past-IsFinished bs p past q))

  done-open : (b : WorkBucket W Q) → IsDone I b → (b.active || b.disable) ≡ true
  unfolding is_drained
  done-open b h = ground arith

  -- The stage that `update_buckets` has opened, from the progress `p`.
  pub record NextStage (bs : Buckets) (p : ℕ) (r : Buckets × ℕ × Bool) : Type 0 where
    pub after_progress : p < r.1
    pub in_range : r.1 < stage_count
    pub was_closed : (bs r.1).active ≡ false
    pub is_open : (r.0 r.1).active ≡ true
    pub has_packets : is_empty I (r.0 r.1) ≡ false
    pub earlier_done : (j : ℕ) → 1 ≤ j → j < r.1 → IsDone I (r.0 j)
    pub later_kept : (j : ℕ) → r.1 < j → r.0 j ≡ bs j
    pub is_past : IsPast r.0 r.1

  Hit-NextStage :
      (bs : Buckets) (p : ℕ) (d : Bool) (s t : Opening I)
      → s.buckets ≡ bs
      → Hit I (p + 1) s t
      → NextStage bs p (t.buckets, t.new_progress, d)
  Hit-NextStage bs p d s t e h = record {
    after_progress = omega (arith, h.after);
    in_range = h.below;
    was_closed = rw (← e) h.was_closed;
    is_open = h.is_open;
    has_packets = h.has_packets;
    earlier_done = h.earlier_done;
    later_kept = λ j above. rw (← e) (h.later_kept j above);
    is_past = λ j lo hi. elim (ℕ_discrete j t.new_progress) [
      | yes q ↦
          subst (λ m. ((t.buckets m).active || (t.buckets m).disable) ≡ true) (sym q) (rw h.is_open)
      | no n ↦ done-open (t.buckets j) (h.earlier_done j lo (omega arith))
    ];
  }

  -- If `update_buckets` reports new work, then the new progress is the number of a stage beyond the
  -- old progress that it has opened and that has packets to run; every earlier stage after
  -- `Unconstrained` is drained or disabled, no later stage is touched, and every stage up to the new
  -- progress is open or disabled.
  pub update_buckets-next :
      (bs : Buckets) (p : ℕ)
      → IsWired bs
      → p < stage_count
      → (update_buckets I bs p).2 ≡ true
      → NextStage bs p (update_buckets I bs p)
  update_buckets-next bs p w hp h =
      let e = update_buckets-packets bs p h in
      let n =
        Hit-NextStage bs p true _ (after bs p) refl (Rounds-Hit I (after-Rounds bs p hp) w e.0) in
      rw (result_of bs p e.1 h) n
    where
      result_of :
          (bs : Buckets) (p : ℕ)
          → (update_buckets I bs p).1 ≡ (after bs p).new_progress
          → (update_buckets I bs p).2 ≡ true
          → update_buckets I bs p ≡ ((after bs p).buckets, (after bs p).new_progress, true)
      result_of bs p e h i = (update_buckets-buckets bs p i, e i, h i)

  -- Opening buckets keeps the stages in order: a stage is open only if every stage between the first
  -- stop-the-world stage and it is open or disabled.
  pub update_buckets-InOrder :
      (bs : Buckets) (p : ℕ)
      → IsWired bs
      → p < stage_count
      → InOrder bs
      → InOrder (update_buckets I bs p).0
  update_buckets-InOrder bs p w hp o =
      let rs = after-Rounds bs p hp in rw (update_buckets-buckets bs p) (Rounds-InOrder I rs w o)

  Rounds-zero : {i : ℕ} {s r : Opening I} → Rounds I i s r → 1 ≤ i → r.buckets 0 ≡ s.buckets 0
  Rounds-zero (finish e n) lo = refl
  Rounds-zero (skip hi b rs) lo = Rounds-zero rs (omega arith)
  Rounds-zero (stop hi r o) lo = o.others 0 (omega arith)
  Rounds-zero (pass hi r o rs) lo = Rounds-zero rs (omega arith) ∙ o.others 0 (omega arith)

  -- The bucket `Unconstrained` is never touched.
  pub update_buckets-zero :
      (bs : Buckets) (p : ℕ) → p < stage_count → (update_buckets I bs p).0 0 ≡ bs 0
  update_buckets-zero bs p hp =
      rw (update_buckets-buckets bs p) (Rounds-zero (after-Rounds bs p hp) (omega arith))

  no_work :
      (bs : Buckets) (p : ℕ) → (update_buckets I bs p).2 ≡ false → (update_buckets I bs p).1 ≡ 0
  unfolding update_buckets
  no_work bs p h = ground arith

  -- The recorded progress is the number of a stage.
  pub update_buckets-progress :
      (bs : Buckets) (p : ℕ)
      → IsWired bs
      → p < stage_count
      → (update_buckets I bs p).1 < stage_count
  update_buckets-progress bs p w hp = elim (Bool-cases (update_buckets I bs p).2) [
    | inl e ↦ (update_buckets-next bs p w hp e).in_range
    | inr e ↦ rw (no_work bs p e) (omega arith)
  ]

  pub update_buckets-IsWired :
      (bs : Buckets) (p : ℕ) → IsWired bs → p < stage_count → IsWired (update_buckets I bs p).0
  update_buckets-IsWired bs p w hp =
      rw (update_buckets-buckets bs p) (Rounds-IsWired I (after-Rounds bs p hp) w)
