-- ===== src/Scheduler/Core/Rounds.antt =====
-- The loop of `update_buckets`, src/scheduler/scheduler.rs, as a derivation: one constructor for each
-- way in which a round can go.
use mmtk_core.Base.{
  ℕ, zero, suc, ◌+◌, ◌<◌, ◌≡◌, Bool, true, false, some, arith, Bool-cases, inl, inr, ◌∙◌,
}
use mathlib.Core.Path.{subst}
use mmtk_core.Scheduler.Injector.{Injector}
use mmtk_core.Scheduler.Bucket.{stage_count}
use mmtk_core.Scheduler.Core.{open_stage, open_stages_from, can_open, Opening}
use mmtk_core.Scheduler.Core.Opened.{
  is_blocked, Opens, Opened, open_stage-skip, open_stage-Opens, open_stage-Opened,
}

module _ {W Q L D : Type 0} (I : Injector W Q L D) where
  -- The bucket of stage `i` may be opened.
  pub record Ready (i : ℕ) (s : Opening I) : Type 0 where
    pub was_closed : (s.buckets i).active ≡ false
    pub was_enabled : (s.buckets i).disable ≡ false
    pub condition : can_open I s.buckets (s.buckets i).can_open ≡ some true

  pub data Rounds : ℕ → Opening I → Opening I → Type 0 where
    finish : {i : ℕ} {s : Opening I} → i ≡ stage_count → s.new_packets ≡ false → Rounds i s s
    skip :
        {i : ℕ} {s r : Opening I}
        → i < stage_count
        → is_blocked I i s.buckets ≡ true
        → Rounds (suc i) s r
        → Rounds i s r
    stop :
        {i : ℕ} {s t : Opening I}
        → i < stage_count
        → Ready i s
        → Opened I i s (t, true)
        → Rounds i s t
    pass :
        {i : ℕ} {s t r : Opening I}
        → i < stage_count
        → Ready i s
        → Opened I i s (t, false)
        → Rounds (suc i) t r
        → Rounds i s r

  with_flag :
      (i : ℕ) (s : Opening I) (r : Opening I × Bool) {b : Bool}
      → r.1 ≡ b
      → Opened I i s r
      → Opened I i s (r.0, b)
  with_flag i s r e o = subst (λ c. Opened I i s (r.0, c)) e o

  Ready-of : (i : ℕ) (s : Opening I) (r : Opening I × Bool) → Opens I i s r → Ready i s
  Ready-of i s r o = record {
    was_closed = o.was_closed;
    was_enabled = o.was_enabled;
    condition = o.condition;
  }

  pub rounds :
      (k i : ℕ) (s : Opening I)
      → i + k ≡ stage_count
      → s.new_packets ≡ false
      → Rounds i s (open_stages_from I k i s)
  unfolding open_stages_from
  rounds zero i s e n = finish (omega arith) n
  rounds (suc k) i s e n = elim (Bool-cases (is_blocked I i s.buckets)) [
    | inl h ↦
        rw (open_stage-skip I i s h) (skip (omega arith) h (rounds k (suc i) s (omega arith) n))
    | inr h ↦
        let o = open_stage-Opened I i s n h in
        let r = Ready-of i s _ (open_stage-Opens I i s h) in
        elim (Bool-cases (open_stage I i s).1) [
          | inl b ↦ rw b (stop (omega arith) r (with_flag i s (open_stage I i s) b o))
          | inr b ↦ rw b (
              pass (omega arith) r (with_flag i s (open_stage I i s) b o)
                (rounds k (suc i) (open_stage I i s).0 (omega arith) (o.packets ∙ b)))
        ]
  ]
