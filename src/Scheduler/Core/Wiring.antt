-- ===== src/Scheduler/Core/Wiring.antt =====
-- The construction of the open conditions, src/scheduler/scheduler.rs.
use mmtk_core.Base.{
  ℕ, zero, suc, ◌+◌, ◌-◌, ◌≤◌, ◌<◌, ◌≡◌, refl, true, not, ◌&&◌, none, some, List, [], ◌∷◌, ◌++◌,
  update, ℕ_discrete, arith, ap, ◌∙◌, update_self, update_ne, ◌==◌,
}
use mathlib.Core.Path.{subst}
use mmtk_core.Scheduler.Injector.{Injector}
use mmtk_core.Scheduler.Bucket.{WorkBucket}
use mmtk_core.Scheduler.Bucket.Work.{set_open_condition}
use mmtk_core.Scheduler.Core.{stages_from, new_buckets, set_open_conditions, initial_buckets}
use mmtk_core.Scheduler.Core.Order.{IsWired}

stages_from-snoc : (i k : ℕ) → stages_from i k ++ (i + k) ∷ [] ≡ stages_from i (suc k)
stages_from-snoc i zero = ground arith
stages_from-snoc i (suc k) = ground (arith, stages_from-snoc (suc i) k)

stages_from-next : (m : ℕ) → stages_from 1 (suc m) ++ suc (suc m) ∷ [] ≡ stages_from 1 (suc (suc m))
stages_from-next m =
    let e : 1 + suc m ≡ suc (suc m) = omega arith in
    subst (λ n. stages_from 1 (suc m) ++ n ∷ [] ≡ stages_from 1 (suc (suc m))) e
      (stages_from-snoc 1 (suc m))

module _ {W Q L D : Type 0} (I : Injector W Q L D) where
  abbrev Buckets : Type 0
  Buckets = ℕ → WorkBucket W Q

  later_stage : (i : ℕ) → 2 ≤ i → (not (i == 0) && not (i == 1)) ≡ true
  later_stage i h = ground arith

  -- A round at a stage after the first stop-the-world one.
  set_open_conditions_round :
      (k i : ℕ) (ss : List ℕ) (bs : Buckets)
      → 2 ≤ i
      → set_open_conditions I (suc k) i ss bs
        ≡ set_open_conditions I k
            (suc i)
            (ss ++ i ∷ [])
            (update bs i (set_open_condition ss (bs i)))
  unfolding set_open_conditions
  set_open_conditions_round k i ss bs h = rw (later_stage i h)

  set_open_conditions-before :
      (k i : ℕ) (ss : List ℕ) (bs : Buckets) (j : ℕ)
      → 2 ≤ i
      → j < i
      → set_open_conditions I k i ss bs j ≡ bs j
  set_open_conditions-before zero i ss bs j two h = unfold set_open_conditions in refl
  set_open_conditions-before (suc k) i ss bs j two h =
      rw (set_open_conditions_round k i ss bs two) (
        set_open_conditions-before k (suc i) (ss ++ i ∷ []) _ j (omega arith) (omega arith)
        ∙ update_ne bs i j (set_open_condition ss (bs i)) (omega arith))

  set_can_open : (ss : List ℕ) (b : WorkBucket W Q) → (set_open_condition ss b).can_open ≡ some ss
  unfolding set_open_condition
  set_can_open ss b = refl

  set_open_conditions-at :
      (k i : ℕ) (ss : List ℕ) (bs : Buckets)
      → 2 ≤ i
      → (set_open_conditions I (suc k) i ss bs i).can_open ≡ some ss
  set_open_conditions-at k i ss bs two =
      rw
        (
          set_open_conditions_round k i ss bs two,
          set_open_conditions-before k (suc i) (ss ++ i ∷ []) _ i (omega arith) (omega arith),
          update_self bs i (set_open_condition ss (bs i)),
        )
        (set_can_open ss (bs i))

  set_open_conditions-later :
      (k m : ℕ) (bs : Buckets) (j : ℕ)
      → suc (suc m) ≤ j
      → j < suc (suc m) + k
      → (set_open_conditions I k (suc (suc m)) (stages_from 1 (suc m)) bs j).can_open
        ≡ some (stages_from 1 (j - 1))
  set_open_conditions-later zero m bs j lo hi = absurd (omega arith)
  set_open_conditions-later (suc k) m bs j lo hi = elim (ℕ_discrete (suc (suc m)) j) [
    | yes e ↦
        let p : suc m ≡ suc (suc m) - 1 = omega arith in
        subst
          (λ j.
            (set_open_conditions I (suc k) (suc (suc m)) (stages_from 1 (suc m)) bs j).can_open
            ≡ some (stages_from 1 (j - 1)))
          e
          (set_open_conditions-at k (suc (suc m)) (stages_from 1 (suc m)) bs (omega arith)
            ∙ ap (λ (n : ℕ). some (stages_from 1 n)) p)
    | no n ↦
        rw
          (
            set_open_conditions_round k (suc (suc m)) (stages_from 1 (suc m)) bs (omega arith),
            stages_from-next m,
          )
          (set_open_conditions-later k (suc m) _ j (omega arith) (omega arith))
  ]

  initial_can_open : (j : ℕ) → 1 ≤ j → (initial_buckets I j).can_open ≡ none
  unfolding initial_buckets
  initial_can_open j h = ground arith

  new_buckets_rest :
      new_buckets I ≡ set_open_conditions I 20 2 (stages_from 1 1) (initial_buckets I)
  unfolding new_buckets set_open_conditions
  new_buckets_rest = refl

  -- The buckets that the scheduler is built with: the first stop-the-world stage has no open
  -- condition, and the condition of each later stage `i` names the stages 1 to `i - 1`, in order.
  pub new_buckets-IsWired : IsWired (new_buckets I)
  new_buckets-IsWired = record {
    first = rw new_buckets_rest (
        ap (λ (b : WorkBucket W Q). b.can_open)
          (set_open_conditions-before 20 2 (stages_from 1 1) (initial_buckets I) 1 (omega arith)
            (omega arith))
        ∙ initial_can_open 1 (omega arith));
    later = λ i lo hi.
        rw new_buckets_rest
          (set_open_conditions-later 20 0 (initial_buckets I) i (omega arith) (omega arith));
  }
