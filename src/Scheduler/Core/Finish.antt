-- ===== src/Scheduler/Core/Finish.antt =====
-- When a collection is over: `update_buckets` of src/scheduler/scheduler.rs finds no more work.
use mmtk_core.Base.{
  ℕ, zero, suc, ◌-◌, ◌≤◌, ◌<◌, ◌≡◌, refl, Bool, true, false, ◌||◌, ◌⊎◌, none, some, ℕ_discrete,
  arith, ap, inr, ◌∙◌,
}
use mathlib.Core.Path.{subst}
use mmtk_core.Scheduler.Injector.{Injector}
use mmtk_core.Scheduler.Bucket.{WorkBucket, stage_count}
use mmtk_core.Scheduler.Bucket.Work.{is_empty, is_drained, activate}
use mmtk_core.Scheduler.Bucket.Work
use mmtk_core.Scheduler.Core.{can_open, Opening}
use mmtk_core.Scheduler.Core.Drained.{IsDone, are_buckets_drained_complete}
use mmtk_core.Scheduler.Core.Opened.{is_blocked, Opened}
use mmtk_core.Scheduler.Core.Rounds.{Ready, Rounds, finish, skip, stop, pass}
use mmtk_core.Scheduler.Core.Order.{
  IsWired, Opened-IsWired, condition-some, Ready-IsDone, Ready-ge-two, InOrder,
}

module _ {W Q L D : Type 0} (I : Injector W Q L D) where
  -- A stage with nothing left to do.
  abbrev pub IsFinished : WorkBucket W Q → Type 0
  IsFinished b =
      (b.disable ≡ true) ⊎ (b.active ≡ true) × (is_empty I b ≡ true) × (b.sentinel ≡ none)

  pub finished-IsDone : (b : WorkBucket W Q) → IsFinished b → IsDone I b
  unfolding is_drained
  finished-IsDone b h = ground arith

  -- Every open bucket is drained, with no sentinel left.
  abbrev pub IsQuiet : (ℕ → WorkBucket W Q) → Type 0
  IsQuiet bs = (j : ℕ) → (bs j).active ≡ true → (is_empty I (bs j) ≡ true) × (bs j).sentinel ≡ none

  all_done :
      (bs : ℕ → WorkBucket W Q) (i : ℕ)
      → IsWired bs
      → 2 ≤ i
      → i < stage_count
      → ((j : ℕ) → 1 ≤ j → j < i → IsFinished (bs j))
      → can_open I bs (bs i).can_open ≡ some true
  all_done bs i w lo hi done =
      condition-some I bs (bs i).can_open (i - 1) (w.later i lo hi)
      ∙ ap some (
          are_buckets_drained_complete I bs (i - 1) 1
            (λ j a b. finished-IsDone (bs j) (done j a (omega arith))))

  not_blocked :
      (b : WorkBucket W Q)
      → b.disable ≡ false
      → b.active ≡ false
      → (Work.update (some true) b).1 ≡ true
  unfolding Work.update
  not_blocked b d a = ground arith

  -- A stage that is skipped although all before it are finished is disabled or open.
  blocked-IsFinished :
      (bs : ℕ → WorkBucket W Q) (i : ℕ)
      → IsWired bs
      → IsQuiet bs
      → (bs 1).active ≡ true
      → 1 ≤ i
      → i < stage_count
      → is_blocked I i bs ≡ true
      → ((j : ℕ) → 1 ≤ j → j < i → IsFinished (bs j))
      → IsFinished (bs i)
  blocked-IsFinished bs zero w q f lo hi b done = absurd (omega arith)
  blocked-IsFinished bs (suc zero) w q f lo hi b done = inr (f, (q 1 f).0, (q 1 f).1)
  blocked-IsFinished bs (suc (suc i)) w q f lo hi b done =
      let k = suc (suc i) in
      let e = all_done bs k w (omega arith) hi done in ground (arith, q k, e, not_blocked (bs k))

  pass-Quiet :
      (i : ℕ) (s t : Opening I) → Opened I i s (t, false) → IsQuiet s.buckets → IsQuiet t.buckets
  pass-Quiet i s t o q j a = elim (ℕ_discrete i j) [
    | yes e ↦
        subst (λ j. (is_empty I (t.buckets j) ≡ true) × ((t.buckets j).sentinel ≡ none)) e
          (o.found.no_packets refl)
    | no n ↦ rw (o.others j n) (q j (rw (← o.others j n) a))
  ]

  pass-IsFinished :
      (i : ℕ) (s t : Opening I)
      → Opened I i s (t, false)
      → ((j : ℕ) → 1 ≤ j → j < i → IsFinished (s.buckets j))
      → (j : ℕ) → 1 ≤ j
      → j < suc i
      → IsFinished (t.buckets j)
  unfolding activate
  pass-IsFinished i s t o done j lo hi = elim (ℕ_discrete i j) [
    | yes e ↦
        subst (λ j. IsFinished (t.buckets j)) e
          (inr (o.found.active_kept, (o.found.no_packets refl).0, (o.found.no_packets refl).1))
    | no n ↦ rw (o.others j n) (done j lo (omega arith))
  ]

  skip-IsFinished :
      (bs : ℕ → WorkBucket W Q) (i : ℕ)
      → IsFinished (bs i)
      → ((j : ℕ) → 1 ≤ j → j < i → IsFinished (bs j))
      → (j : ℕ) → 1 ≤ j
      → j < suc i
      → IsFinished (bs j)
  skip-IsFinished bs i f done j lo hi = elim (ℕ_discrete i j) [
    | yes e ↦ subst (λ j. IsFinished (bs j)) e f
    | no n ↦ done j lo (omega arith)
  ]

  pub Rounds-IsFinished :
      {i : ℕ} {s r : Opening I}
      → Rounds I i s r
      → IsWired s.buckets
      → IsQuiet s.buckets
      → (s.buckets 1).active ≡ true
      → 1 ≤ i
      → r.new_packets ≡ false
      → ((j : ℕ) → 1 ≤ j → j < i → IsFinished (s.buckets j))
      → (j : ℕ) → 1 ≤ j
      → j < stage_count
      → IsFinished (r.buckets j)
  Rounds-IsFinished (finish e n) w q f lo h done = λ j a b. done j a (omega arith)
  Rounds-IsFinished (skip hi b rs) w q f lo h done =
      Rounds-IsFinished rs w q f (omega arith) h
        (skip-IsFinished _ _ (blocked-IsFinished _ _ w q f lo hi b done) done)
  Rounds-IsFinished (stop hi r o) w q f lo h done = cc (o.packets)
  Rounds-IsFinished {i} {s} (pass hi r o rs) w q f lo h done =
      let two = Ready-ge-two I i s w lo r in
      Rounds-IsFinished rs (Opened-IsWired I _ _ _ o w) (pass-Quiet _ _ _ o q)
        (rw (o.others 1 (omega arith)) f) (omega arith) h (pass-IsFinished _ _ _ o done)

  done-open : (b : WorkBucket W Q) → IsDone I b → (b.active || b.disable) ≡ true
  unfolding is_drained
  done-open b h = ground arith

  open_kept :
      (i : ℕ) (s : Opening I) (r : Opening I × Bool)
      → Opened I i s r
      → (j : ℕ) → ((s.buckets j).active || (s.buckets j).disable) ≡ true
      → ((r.0.buckets j).active || (r.0.buckets j).disable) ≡ true
  unfolding activate
  open_kept i s r o j h = elim (ℕ_discrete i j) [
    | yes e ↦
        subst (λ j. ((r.0.buckets j).active || (r.0.buckets j).disable) ≡ true) e
          (rw o.found.active_kept refl)
    | no n ↦ rw (o.others j n) h
  ]

  Opened-InOrder :
      (i : ℕ) (s : Opening I) (r : Opening I × Bool)
      → IsWired s.buckets
      → i < stage_count
      → Ready I i s
      → Opened I i s r
      → InOrder s.buckets
      → InOrder r.0.buckets
  Opened-InOrder i s r w hi ready o ord j m lo below a = elim (ℕ_discrete i m) [
    | yes e ↦
        open_kept i s r o j
          (done-open (s.buckets j) (Ready-IsDone I i s w hi ready j lo (omega arith)))
    | no n ↦ open_kept i s r o j (ord j m lo below (rw (← o.others m n) a))
  ]

  pub Rounds-InOrder :
      {i : ℕ} {s r : Opening I}
      → Rounds I i s r
      → IsWired s.buckets
      → InOrder s.buckets
      → InOrder r.buckets
  Rounds-InOrder (finish e n) w ord = ord
  Rounds-InOrder (skip hi b rs) w ord = Rounds-InOrder rs w ord
  Rounds-InOrder (stop hi r o) w ord = Opened-InOrder _ _ _ w hi r o ord
  Rounds-InOrder (pass hi r o rs) w ord =
      Rounds-InOrder rs (Opened-IsWired I _ _ _ o w) (Opened-InOrder _ _ _ w hi r o ord)

  pub Rounds-IsWired :
      {i : ℕ} {s r : Opening I} → Rounds I i s r → IsWired s.buckets → IsWired r.buckets
  Rounds-IsWired (finish e n) w = w
  Rounds-IsWired (skip hi b rs) w = Rounds-IsWired rs w
  Rounds-IsWired (stop hi r o) w = Opened-IsWired I _ _ _ o w
  Rounds-IsWired (pass hi r o rs) w = Rounds-IsWired rs (Opened-IsWired I _ _ _ o w)
