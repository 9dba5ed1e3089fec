-- ===== src/Scheduler/Poll/Nothing.antt =====
-- When a worker finds no packet, src/scheduler/scheduler.rs.
use mmtk_core.Base.{
  ℕ, zero, suc, ◌+◌, ◌≤◌, ◌<◌, ◌≡◌, ◌≢◌, ◌⊎◌, refl, sym, ap, ◌∙◌, Bool, true, false, not, ◌||◌,
  Option, none, some, List, [], ◌∷◌, update, update_ne, both_true, arith, Bool-cases, inl, inr,
  ℕ_discrete,
}
use mathlib.Core.Path.{subst}
use mmtk_core.Scheduler.Injector.{Injector, Steal}
use mmtk_core.Scheduler.Bucket.{WorkBucket, stage_count}
use mmtk_core.Scheduler.Bucket.Work.{poll, poll_queues, poll_both, is_empty, prioritized_is_empty}
use mmtk_core.Scheduler.Bucket.Polling.{packets}
use mmtk_core.Scheduler.Poll.{
  View, poll_bucket_on, poll_buckets, steal_on, steal_from, answer, after_buckets, after_designated,
  poll_schedulable_work_once,
}

module _ {W Q L D : Type 0} (I : Injector W Q L D) where
  -- A bucket from which no packet can be polled now.
  abbrev pub IsIdle : WorkBucket W Q → Type 0
  IsIdle b = (b.disable ≡ true) ⊎ (b.active ≡ false) ⊎ (packets I b ≡ [])

  or_else-retry_ne : (r : Steal W) → I.or_else Steal.retry r ≢ Steal.empty
  or_else-retry_ne (Steal.success w) e = let q = sym (I.or_else-retry w) ∙ e in cc
  or_else-retry_ne Steal.empty e = let q = sym I.or_else-retry_empty ∙ e in cc
  or_else-retry_ne Steal.retry e = let q = sym I.or_else-retry_retry ∙ e in cc

  both-empty :
      (r : Steal W) (source : Q) (dest : L) (b : WorkBucket W Q)
      → (poll_both I (record { result = r; source = source; dest = dest }) b).0 ≡ Steal.empty
      → (r ≡ Steal.empty) × (I.items b.queue ≡ [])
  unfolding poll_both
  both-empty (Steal.success w) source dest b e = cc
  both-empty Steal.empty source dest b e =
      (refl, (I.batch-empty b.queue dest (sym (I.or_else-empty _) ∙ e)).0)
  both-empty Steal.retry source dest b e = absurd (or_else-retry_ne _ e)

  queues-empty :
      (o : Option Q) (b : WorkBucket W Q) (l : L)
      → b.prioritized_queue ≡ o
      → (poll_queues I o b l).0 ≡ Steal.empty
      → packets I b ≡ []
  unfolding poll_queues
  queues-empty none b l p e = rw p (I.batch-empty b.queue l e).0
  queues-empty (some q) b l p e =
      let s = I.steal_batch_and_pop q l in
      let k = both-empty s.result s.source s.dest b e in rw (p, (I.batch-empty q l k.0).0) k.1

  no_packets :
      (o : Option Q) (b : WorkBucket W Q)
      → b.prioritized_queue ≡ o
      → b.disable ≡ false
      → is_empty I b ≡ true
      → packets I b ≡ []
  unfolding is_empty prioritized_is_empty
  no_packets none b p d e = rw p ((I.is_empty_iff b.queue).0 (both_true _ _ (rw d at e)).0)
  no_packets (some q) b p d e =
      let k = both_true _ _ (rw (d, p) at e) in
      rw (p, (I.is_empty_iff q).0 k.1) ((I.is_empty_iff b.queue).0 k.0)

  skipped-IsIdle :
      (b : WorkBucket W Q) → (b.disable || not b.active || is_empty I b) ≡ true → IsIdle b
  skipped-IsIdle b e = elim (Bool-cases b.disable) [
    | inl d ↦ inl d
    | inr d ↦ elim (Bool-cases b.active) [
      | inr a ↦ inr (inl a)
      | inl a ↦
          let h : is_empty I b ≡ true = ground arith in
          inr (inr (no_packets b.prioritized_queue b refl d h))
    ]
  ]

  poll_open :
      (b : WorkBucket W Q) (l : L)
      → (b.disable || not b.active || is_empty I b) ≡ false
      → poll I b l ≡ poll_queues I b.prioritized_queue b l
  unfolding poll
  poll_open b l e = rw e refl

  poll-empty : (b : WorkBucket W Q) (l : L) → (poll I b l).0 ≡ Steal.empty → IsIdle b
  poll-empty b l e = elim (Bool-cases (b.disable || not b.active || is_empty I b)) [
    | inl h ↦ skipped-IsIdle b h
    | inr h ↦ inr (
        inr (queues-empty b.prioritized_queue b l refl (sym (ap (λ r. r.0) (poll_open b l h)) ∙ e)))
  ]

  bucket_step :
      (r : Steal W) (k i : ℕ) (bs cs : ℕ → WorkBucket W Q) (l : L) (sr : Bool)
      → (r ≡ Steal.empty → IsIdle (bs i))
      → ((j : ℕ) → i ≢ j → cs j ≡ bs j)
      → ((sr : Bool)
          → (poll_buckets I k (suc i) cs l sr).0 ≡ none
          → (poll_buckets I k (suc i) cs l sr).3 ≡ false
          → (sr ≡ false) × ((j : ℕ) → suc i ≤ j → j < suc i + k → IsIdle (cs j)))
      → (poll_bucket_on I r cs l sr (poll_buckets I k (suc i) cs l)).0 ≡ none
      → (poll_bucket_on I r cs l sr (poll_buckets I k (suc i) cs l)).3 ≡ false
      → (sr ≡ false) × ((j : ℕ) → i ≤ j → j < i + suc k → IsIdle (bs j))
  unfolding poll_bucket_on
  bucket_step (Steal.success w) k i bs cs l sr idle same ih n f = cc
  bucket_step Steal.retry k i bs cs l sr idle same ih n f = let h = ih true n f in cc
  bucket_step Steal.empty k i bs cs l sr idle same ih n f =
      let h = ih sr n f in
      (
        h.0,
        λ j lo hi. elim (ℕ_discrete i j) [
          | yes e ↦ subst (λ m. IsIdle (bs m)) e (idle refl)
          | no ne ↦ subst IsIdle (same j ne) (h.1 j (omega arith) (omega arith))
        ],
      )

  buckets-none :
      (k i : ℕ) (bs : ℕ → WorkBucket W Q) (l : L) (sr : Bool)
      → (poll_buckets I k i bs l sr).0 ≡ none
      → (poll_buckets I k i bs l sr).3 ≡ false
      → (sr ≡ false) × ((j : ℕ) → i ≤ j → j < i + k → IsIdle (bs j))
  unfolding poll_buckets
  buckets-none zero i bs l sr n f = (f, λ j lo hi. absurd (omega arith))
  buckets-none (suc k) i bs l sr n f =
      let p = poll I (bs i) l in
      bucket_step p.0 k i bs (update bs i p.1) p.2 sr (poll-empty (bs i) l)
        (λ j ne. update_ne bs i j p.1 ne)
        (λ sr n f. buckets-none k (suc i) (update bs i p.1) p.2 sr n f) n f

  -- The local queues hold nothing.
  abbrev pub AreEmpty : List L → Type 0
  AreEmpty [] = Unit {0}
  AreEmpty (l ∷ ls) = (I.local_items l ≡ []) × AreEmpty ls

  steal_step :
      (r : Steal W) (l l' : L) (ls : List L) (sr : Bool)
      → (r ≡ Steal.empty → I.local_items l ≡ [])
      → ((sr : Bool)
          → (steal_from I ls sr).0 ≡ none
          → (steal_from I ls sr).2 ≡ false
          → (sr ≡ false) × AreEmpty ls)
      → (steal_on I r l' ls sr (steal_from I ls)).0 ≡ none
      → (steal_on I r l' ls sr (steal_from I ls)).2 ≡ false
      → (sr ≡ false) × AreEmpty (l ∷ ls)
  unfolding steal_on
  steal_step (Steal.success w) l l' ls sr h ih n f = cc
  steal_step Steal.retry l l' ls sr h ih n f = let k = ih true n f in cc
  steal_step Steal.empty l l' ls sr h ih n f = let k = ih sr n f in (k.0, (h refl, k.1))

  steal_from-none :
      (ls : List L) (sr : Bool)
      → (steal_from I ls sr).0 ≡ none
      → (steal_from I ls sr).2 ≡ false
      → (sr ≡ false) × AreEmpty ls
  unfolding steal_from
  steal_from-none [] sr n f = (f, tt)
  steal_from-none (l ∷ ls) sr n f =
      steal_step (I.steal_local l).0 l (I.steal_local l).1 ls sr (I.steal_local-empty l)
        (steal_from-none ls) n f

  -- Nothing is left for a worker to do.
  pub record FoundNothing (v : View W Q L D) : Type 0 where
    pub designated : I.designated_is_empty v.designated_work ≡ true
    pub buckets : (j : ℕ) → j < stage_count → IsIdle (v.work_buckets j)
    pub others : AreEmpty v.stealers

  answer-empty :
      (o : Option W) (sr : Bool) → answer I o sr ≡ Steal.empty → (o ≡ none) × (sr ≡ false)
  unfolding answer
  answer-empty (some w) sr e = cc
  answer-empty none true e = cc
  answer-empty none false e = (refl, refl)

  after_buckets-empty :
      (r : Option W × (ℕ → WorkBucket W Q) × L × Bool) (o : Option W) (v : View W Q L D)
      → r.0 ≡ o
      → (after_buckets I (o, r.1, r.2, r.3) v).0 ≡ Steal.empty
      → (o ≡ none) × (r.3 ≡ false) × AreEmpty v.stealers
  unfolding after_buckets
  after_buckets-empty r (some w) v q e = cc
  after_buckets-empty r none v q e =
      let k = answer-empty _ _ e in
      let h = steal_from-none v.stealers r.3 k.0 k.1 in (refl, h.0, h.1)

  after_designated-empty :
      (p : Option W × D) (o : Option W) (v : View W Q L D)
      → p.0 ≡ o
      → p ≡ I.designated_pop v.designated_work
      → (after_designated I (o, p.1) v).0 ≡ Steal.empty
      → FoundNothing v
  unfolding after_designated
  after_designated-empty p (some w) v q d e = cc
  after_designated-empty p none v q d e =
      let r = poll_buckets I stage_count 0 v.work_buckets v.local_work_buffer false in
      let k = after_buckets-empty r r.0 (record v { designated_work = p.1 }) refl e in
      let h = buckets-none stage_count 0 v.work_buckets v.local_work_buffer false k.0 k.1 in
      record {
        designated = (I.designated_pop_iff v.designated_work).0 (sym (ap (λ x. x.0) d) ∙ q);
        buckets = λ j hi. h.1 j (omega arith) (omega arith);
        others = k.2;
      }

  -- If a worker is told that there is no packet, and not to retry, then there is none: no packet is
  -- designated to it, every bucket is disabled, closed or without packets, and the local queues of the
  -- other workers are empty.
  pub poll_schedulable_work_once-FoundNothing :
      (v : View W Q L D) → (poll_schedulable_work_once I v).0 ≡ Steal.empty → FoundNothing v
  unfolding poll_schedulable_work_once
  poll_schedulable_work_once-FoundNothing v e =
      let p = I.designated_pop v.designated_work in after_designated-empty p p.0 v refl refl e
