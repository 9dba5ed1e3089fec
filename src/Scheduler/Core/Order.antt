-- ===== src/Scheduler/Core/Order.antt =====
-- The order of the stages of a collection, src/scheduler/scheduler.rs.
use mmtk_core.Base.{
  ℕ, zero, suc, ◌-◌, ◌≤◌, ◌<◌, ◌≡◌, refl, Bool, true, false, ◌||◌, Option, none, some, List,
  ℕ_discrete, arith, ap, sym, ◌∙◌,
}
use mathlib.Core.Path.{subst}
use mmtk_core.Scheduler.Injector.{Injector}
use mmtk_core.Scheduler.Bucket.{WorkBucket, stage_count}
use mmtk_core.Scheduler.Bucket.Work.{is_empty, activate}
use mmtk_core.Scheduler.Core.{stages_from, are_buckets_drained, can_open, Opening}
use mmtk_core.Scheduler.Core.Drained.{IsDone, are_buckets_drained_sound}
use mmtk_core.Scheduler.Core.Opened.{Opened}
use mmtk_core.Scheduler.Core.Rounds.{Ready, Rounds, finish, skip, stop, pass}

-- The open conditions are those that the constructor sets.
pub record IsWired {W Q : Type 0} (bs : ℕ → WorkBucket W Q) : Type 0 where
  pub first : (bs 1).can_open ≡ none
  pub later : (i : ℕ) → 2 ≤ i → i < stage_count → (bs i).can_open ≡ some (stages_from 1 (i - 1))

-- An open stage has only open or disabled stages before it.
abbrev pub InOrder : {W Q : Type 0} → (ℕ → WorkBucket W Q) → Type 0
InOrder bs =
    (j m : ℕ) → 1 ≤ j → j < m → (bs m).active ≡ true → ((bs j).active || (bs j).disable) ≡ true

module _ {W Q L D : Type 0} (I : Injector W Q L D) where
  pub Opened-can_open :
      (i : ℕ) (s : Opening I) (r : Opening I × Bool)
      → Opened I i s r
      → (j : ℕ) → (r.0.buckets j).can_open ≡ (s.buckets j).can_open
  unfolding activate
  Opened-can_open i s r o j = elim (ℕ_discrete i j) [
    | yes e ↦ subst (λ j. (r.0.buckets j).can_open ≡ (s.buckets j).can_open) e o.found.can_open_kept
    | no n ↦ ap (λ (b : WorkBucket W Q). b.can_open) (o.others j n)
  ]

  pub Opened-IsWired :
      (i : ℕ) (s : Opening I) (r : Opening I × Bool)
      → Opened I i s r
      → IsWired s.buckets
      → IsWired r.0.buckets
  Opened-IsWired i s r o w = record {
    first = Opened-can_open i s r o 1 ∙ w.first;
    later = λ j lo hi. Opened-can_open i s r o j ∙ w.later j lo hi;
  }

  pub condition-some :
      (bs : ℕ → WorkBucket W Q) (o : Option (List ℕ)) (k : ℕ)
      → o ≡ some (stages_from 1 k)
      → can_open I bs o ≡ some (are_buckets_drained I bs (stages_from 1 k))
  unfolding can_open
  condition-some bs o k e = rw e refl

  some-true : (b : Bool) → some b ≡ some true → b ≡ true
  some-true b h = ground arith

  condition-none :
      (bs : ℕ → WorkBucket W Q) (o : Option (List ℕ)) → o ≡ none → can_open I bs o ≡ none
  unfolding can_open
  condition-none bs o e = rw e refl

  -- A bucket may be opened only when every stage between the first and its own is done.
  pub Ready-IsDone :
      (i : ℕ) (s : Opening I)
      → IsWired s.buckets
      → i < stage_count
      → Ready I i s
      → (j : ℕ) → 1 ≤ j
      → j < i
      → IsDone I (s.buckets j)
  Ready-IsDone i s w hi r j lo below =
      let e =
        condition-some s.buckets (s.buckets i).can_open (i - 1) (w.later i (omega arith) hi) in
      are_buckets_drained_sound I s.buckets (i - 1) 1 (some-true _ (sym e ∙ r.condition)) j lo
        (omega arith)

  pub Ready-ge-two : (i : ℕ) (s : Opening I) → IsWired s.buckets → 1 ≤ i → Ready I i s → 2 ≤ i
  Ready-ge-two zero s w lo r = absurd (omega arith)
  Ready-ge-two (suc zero) s w lo r =
      let e = condition-none s.buckets (s.buckets 1).can_open w.first in cc (sym e ∙ r.condition)
  Ready-ge-two (suc (suc i)) s w lo r = omega arith

  -- The state after a pass that found work, at stage `r.new_progress`.
  pub record Hit (i : ℕ) (s r : Opening I) : Type 0 where
    pub after : i ≤ r.new_progress
    pub below : r.new_progress < stage_count
    pub is_open : (r.buckets r.new_progress).active ≡ true
    pub has_packets : is_empty I (r.buckets r.new_progress) ≡ false
    pub was_closed : (s.buckets r.new_progress).active ≡ false
    pub earlier_done : (j : ℕ) → 1 ≤ j → j < r.new_progress → IsDone I (r.buckets j)
    pub later_kept : (j : ℕ) → r.new_progress < j → r.buckets j ≡ s.buckets j
    pub updated : r.buckets_updated ≡ true

  stop-Hit :
      (i : ℕ) (s t : Opening I)
      → IsWired s.buckets
      → i < stage_count
      → Ready I i s
      → Opened I i s (t, true)
      → Hit i s t
  unfolding activate
  stop-Hit i s t w hi r o =
      let e : t.new_progress ≡ i = o.progress refl in
      record {
        after = omega arith;
        below = omega arith;
        is_open = rw e o.found.active_kept;
        has_packets = rw e (o.found.has_packets refl);
        was_closed = rw e r.was_closed;
        earlier_done = λ j lo below.
            rw (o.others j (omega arith)) (Ready-IsDone i s w hi r j lo (omega arith));
        later_kept = λ j above. o.others j (omega arith);
        updated = o.updated;
      }

  pass-Hit : (i : ℕ) (s t r : Opening I) → Opened I i s (t, false) → Hit (suc i) t r → Hit i s r
  pass-Hit i s t r o h = record {
    after = omega (arith, h.after);
    below = h.below;
    is_open = h.is_open;
    has_packets = h.has_packets;
    was_closed = rw (← o.others r.new_progress (omega (arith, h.after))) h.was_closed;
    earlier_done = h.earlier_done;
    later_kept = λ j above. h.later_kept j above ∙ o.others j (omega (arith, h.after));
    updated = h.updated;
  }

  skip-Hit : (i : ℕ) (s r : Opening I) → Hit (suc i) s r → Hit i s r
  skip-Hit i s r h = record {
    after = omega (arith, h.after);
    below = h.below;
    is_open = h.is_open;
    has_packets = h.has_packets;
    was_closed = h.was_closed;
    earlier_done = h.earlier_done;
    later_kept = h.later_kept;
    updated = h.updated;
  }

  pub Rounds-Hit :
      {i : ℕ} {s r : Opening I}
      → Rounds I i s r
      → IsWired s.buckets
      → r.new_packets ≡ true
      → Hit i s r
  Rounds-Hit (finish e n) w h = cc
  Rounds-Hit (skip hi b rs) w h = skip-Hit _ _ _ (Rounds-Hit rs w h)
  Rounds-Hit (stop hi r o) w h = stop-Hit _ _ _ w hi r o
  Rounds-Hit (pass hi r o rs) w h = pass-Hit _ _ _ _ o (Rounds-Hit rs (Opened-IsWired _ _ _ o w) h)
