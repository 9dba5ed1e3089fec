-- ===== src/Scheduler/Core/Drained.antt =====
-- Lemmas on drained buckets and on the open conditions of src/scheduler/scheduler.rs.
use mmtk_core.Base.{
  ℕ, zero, suc, ◌+◌, ◌≤◌, ◌<◌, ◌≡◌, ◌≢◌, refl, Bool, true, false, ◌||◌, Option, none, some, List,
  [], ◌∷◌, ◌++◌, both_true, ℕ_discrete, arith, Bool-cases, inl, inr, sym, ◌∙◌,
}
use mmtk_core.Scheduler.Injector.{Injector}
use mmtk_core.Scheduler.Bucket.{WorkBucket}
use mmtk_core.Scheduler.Bucket.Work.{is_empty, is_drained}
use mmtk_core.Scheduler.Core.{stages_from, are_buckets_drained, find_packets}

module _ {W Q L D : Type 0} (I : Injector W Q L D) where
  -- What an open condition asks of one earlier stage.
  abbrev pub IsDone : WorkBucket W Q → Type 0
  IsDone b = (is_drained I b || b.disable) ≡ true

  pub are_buckets_drained_sound :
      (bs : ℕ → WorkBucket W Q) (k i : ℕ)
      → are_buckets_drained I bs (stages_from i k) ≡ true
      → (j : ℕ) → i ≤ j
      → j < i + k
      → IsDone (bs j)
  unfolding are_buckets_drained
  are_buckets_drained_sound bs zero i h j lo hi = absurd (omega arith)
  are_buckets_drained_sound bs (suc k) i h j lo hi = elim (ℕ_discrete i j) [
    | yes e ↦ rw (← e) (both_true _ _ h).0
    | no n ↦
        are_buckets_drained_sound bs k (suc i) (both_true _ _ h).1 j (omega arith) (omega arith)
  ]

  pub are_buckets_drained_complete :
      (bs : ℕ → WorkBucket W Q) (k i : ℕ)
      → ((j : ℕ) → i ≤ j → j < i + k → IsDone (bs j))
      → are_buckets_drained I bs (stages_from i k) ≡ true
  unfolding are_buckets_drained
  are_buckets_drained_complete bs zero i h = refl
  are_buckets_drained_complete bs (suc k) i h =
      rw (h i (omega arith) (omega arith))
        (are_buckets_drained_complete bs k (suc i) (λ j lo hi. h j (omega arith) (omega arith)))

  -- A queue that has just received a packet is not empty.
  push-ne-empty : (w : W) (q : Q) → I.is_empty (I.push w q) ≡ false
  push-ne-empty w q = elim (Bool-cases (I.is_empty (I.push w q))) [
    | inl e ↦ absurd (append-ne-nil _ (sym (I.items-push w q) ∙ (I.is_empty_iff _).0 e))
    | inr e ↦ e
  ]
    where
      append-ne-nil : (ws : List W) → (ws ++ w ∷ []) ≢ []
      append-ne-nil [] e = cc
      append-ne-nil (v ∷ ws) e = cc

  -- What `find_packets` keeps of an enabled, active bucket, and what its answer means.
  pub record Found (b c : WorkBucket W Q) (found : Bool) : Type 0 where
    pub active_kept : c.active ≡ b.active
    pub disable_kept : c.disable ≡ b.disable
    pub can_open_kept : c.can_open ≡ b.can_open
    pub has_packets : found ≡ true → is_empty I c ≡ false
    pub no_packets : found ≡ false → (is_empty I c ≡ true) × (c.sentinel ≡ none)

  find_none :
      (b : WorkBucket W Q)
      → b.sentinel ≡ none
      → b.active ≡ true
      → b.disable ≡ false
      → Found b (find_packets I false b).0 (find_packets I false b).1
  unfolding find_packets is_empty
  find_none b e a d = ground arith

  find_some :
      (b : WorkBucket W Q) (w : W)
      → b.sentinel ≡ some w
      → b.active ≡ true
      → b.disable ≡ false
      → Found b (find_packets I false b).0 (find_packets I false b).1
  unfolding find_packets is_empty
  find_some b w e a d = ground (arith, push-ne-empty w b.queue)

  -- On an open, enabled bucket.
  pub find_packets-Found :
      (b : WorkBucket W Q)
      → b.active ≡ true
      → b.disable ≡ false
      → Found b (find_packets I false b).0 (find_packets I false b).1
  find_packets-Found b a d = split b.sentinel refl
    where
      split :
          (o : Option W)
          → b.sentinel ≡ o
          → Found b (find_packets I false b).0 (find_packets I false b).1
      split none e = find_none b e a d
      split (some w) e = find_some b w e a d
