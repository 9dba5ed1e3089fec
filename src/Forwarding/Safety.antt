-- ===== src/Forwarding/Safety.antt =====
-- What holds while workers race to forward an object, src/util/object_forwarding.rs.
use mmtk_core.Base.{
  ℕ, ◌<◌, ◌≡◌, ◌≢◌, inl, inr, Bool, true, false, update, update_ne, update_self, Bool-cases,
  ℕ_discrete, arith, ◌≤◌, sym, ◌∙◌,
}
use mathlib.Core.Path.{subst}
use mmtk_core.Forwarding.{
  Pc, attempt, Layout, IsPacked, IsPlaced, System, step, other_bits, Reach, start, later,
}
use mmtk_core.Forwarding.View.{Status, Move, Seen}
use mmtk_core.Forwarding.Packed.{view, Move-view}
use mmtk_core.Forwarding.Moves.{
  is_owner, Knows, IsStatus, owner-bits, Move-Knows, Move-owner, Move-busy, Move-other,
}

pub record Inv (n : ℕ) (s : Seen) : Type 0 where
  pub status : IsStatus s.metadata
  pub knows : (i : ℕ) → Knows s.metadata (s.pc i)
  pub unique : (i j : ℕ) → is_owner (s.pc i) ≡ true → is_owner (s.pc j) ≡ true → i ≡ j
  pub covered : s.metadata.bits ≡ 2 → (i : ℕ) × (i < n) × (is_owner (s.pc i) ≡ true)

owned : (f : ℕ → Pc) (i : ℕ) (p : Pc) → is_owner (update f i p i) ≡ true → is_owner p ≡ true
owned f i p h = rw (update_self f i p) at h

owner_clash : (p : Pc) → is_owner p ≡ false → is_owner p ≡ true → ⊥
owner_clash p e f = cc

start-Inv :
    (n : ℕ) (m : Status)
    → m.bits ≡ 0
    → m.copies ≡ 0
    → Inv n (record { metadata = m; pc = λ _. attempt })
start-Inv n m untouched uncopied = record {
  status = inl (untouched, uncopied);
  knows = λ i. tt;
  unique = λ i j e f. cc;
  covered = λ e. absurd (omega arith);
}

other-not_owner :
    (n : ℕ) (s : Seen) (i j : ℕ)
    → Inv n s
    → i ≢ j
    → is_owner (s.pc i) ≡ true
    → is_owner (s.pc j) ≡ false
other-not_owner n s i j h ne o = elim (Bool-cases (is_owner (s.pc j))) [
  | inl e ↦ absurd (ne (h.unique i j o e))
  | inr e ↦ e
]

module _ {object : ℕ} {both : Bool} where
  step-Knows :
      (n : ℕ) (s : Seen) (i : ℕ) (m : Status) (p : Pc)
      → Inv n s
      → Move object both s.metadata (s.pc i) m p
      → (j : ℕ) → Knows m (update s.pc i p j)
  step-Knows n s i m p h mv j = elim (ℕ_discrete i j) [
    | yes e ↦
        subst (λ j. Knows m (update s.pc i p j)) e
          (rw (update_self s.pc i p) (Move-Knows mv h.status (h.knows i)).0)
    | no ne ↦
        rw (update_ne s.pc i j p ne)
          (Move-other (s.pc j) mv (h.knows i) (h.knows j) (other-not_owner n s i j h ne))
  ]

  -- Two owners after a step: the mover and another one cannot both own.
  mover-alone :
      (n : ℕ) (s : Seen) (i : ℕ) (m : Status) (p : Pc)
      → Inv n s
      → Move object both s.metadata (s.pc i) m p
      → is_owner p ≡ true
      → (j : ℕ) → is_owner (s.pc j) ≡ true
      → i ≡ j
  mover-alone n s i m p h mv o j oj = elim (Move-owner mv o) [
    | inl oi ↦ h.unique i j oi oj
    | inr z ↦ absurd (omega (arith, owner-bits s.metadata (s.pc j) oj (h.knows j)))
  ]

  step_unique :
      (n : ℕ) (s : Seen) (i : ℕ) (m : Status) (p : Pc)
      → Inv n s
      → Move object both s.metadata (s.pc i) m p
      → (j k : ℕ) → is_owner (update s.pc i p j) ≡ true
      → is_owner (update s.pc i p k) ≡ true
      → j ≡ k
  step_unique n s i m p h mv j k oj ok = elim (ℕ_discrete i j) [
    | yes e ↦ elim (ℕ_discrete i k) [
      | yes f ↦ sym e ∙ f
      | no nk ↦
          sym e
          ∙ mover-alone n s i m p h mv
              (owned s.pc i p (subst (λ j. is_owner (update s.pc i p j) ≡ true) (sym e) oj)) k
              (rw (update_ne s.pc i k p nk) at ok)
    ]
    | no nj ↦ elim (ℕ_discrete i k) [
      | yes f ↦
          sym (
            mover-alone n s i m p h mv
              (owned s.pc i p (subst (λ k. is_owner (update s.pc i p k) ≡ true) (sym f) ok)) j
              (rw (update_ne s.pc i j p nj) at oj))
          ∙ f
      | no nk ↦
          h.unique j k (rw (update_ne s.pc i j p nj) at oj) (rw (update_ne s.pc i k p nk) at ok)
    ]
  ]

  step-covered :
      (n : ℕ) (s : Seen) (i : ℕ) (m : Status) (p : Pc)
      → Inv n s
      → i < n
      → Move object both s.metadata (s.pc i) m p
      → m.bits ≡ 2
      → (j : ℕ) × (j < n) × (is_owner (update s.pc i p j) ≡ true)
  step-covered n s i m p h lt mv e = elim (Move-busy mv e) [
    | inl o ↦ (i, lt, rw (update_self s.pc i p) o)
    | inr (b, o) ↦
        let (j, below, oj) = h.covered b in
        (j, below, rw (update_ne s.pc i j p (λ q. owner_clash (s.pc i) o (rw (← q) at oj))) oj)
  ]

  Step-Inv :
      (n : ℕ) (s : Seen) (i : ℕ) (m : Status) (p : Pc)
      → Inv n s
      → i < n
      → Move object both s.metadata (s.pc i) m p
      → Inv n (record { metadata = m; pc = update s.pc i p })
  Step-Inv n s i m p h lt mv = record {
    status = (Move-Knows mv h.status (h.knows i)).1;
    knows = step-Knows n s i _ _ h mv;
    unique = step_unique n s i _ _ h mv;
    covered = step-covered n s i _ _ h lt mv;
  }

abbrev seen : Layout → System → Seen
seen l s = record { metadata = view l s.metadata; pc = s.pc }

copied_once : (m : Status) → IsStatus m → m.copies ≤ 1
copied_once m h = omega (arith, h)

module _ {object : ℕ} {l : Layout} (at : IsPlaced l) where
  Reach-Inv : {n : ℕ} {s : System} → Reach object l n s → Inv n (seen l s) × IsPacked l s.metadata
  Reach-Inv {n} (start m packed untouched uncopied) =
      (start-Inv n (view l m) untouched uncopied, packed)
  Reach-Inv {n} (later {s} r (step i {m} {p} lt mv)) =
      let (h, packed) = Reach-Inv r in
      let (moved, packed') = Move-view at packed mv in
      (Step-Inv n (seen l s) i (view l m) p h lt moved, packed')
  Reach-Inv {n} (later {s} r (other_bits m packed same_bits same_pointer same_copies)) =
      (rw (same_bits, same_pointer, same_copies) (Reach-Inv r).0, packed)

  -- Wherever the forwarding bits are, whether they are stored together with the pointer or after it,
  -- whatever happens to the bits beside them, and however the workers interleave: at most one worker
  -- is forwarding the object at a time, and the object is copied at most once in all.
  pub one_forwarder :
      {n : ℕ} {s : System}
      → Reach object l n s
      → ((i j : ℕ) → is_owner (s.pc i) ≡ true → is_owner (s.pc j) ≡ true → i ≡ j)
        × (s.metadata.copies ≤ 1)
  one_forwarder {s} r =
      let h = (Reach-Inv r).0 in (h.unique, copied_once (view l s.metadata) h.status)
