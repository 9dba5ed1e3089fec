-- ===== src/Immix/Lines/Run.antt =====
-- Runs of lines that pass a test, and the loop that looks for their ends.
use mmtk_core.Base.{
  ℕ, zero, suc, ◌+◌, ◌≤◌, ◌<◌, ◌≡◌, inl, inr, Bool, true, false, Bool-cases, arith, ℕ_discrete,
}
use mmtk_core.Immix.Lines.{advance}

-- All lines of a range pass the test.
abbrev pub AllFree : (ℕ → Bool) → (start end : ℕ) → Type 0
AllFree free start end = (j : ℕ) → start ≤ j → j < end → free j ≡ true

-- Where the loop ends.
pub record IsFirst (stop : ℕ → Bool) (cursor limit found : ℕ) : Type 0 where
  pub above : cursor ≤ found
  pub below : found ≤ limit
  pub passed : (j : ℕ) → cursor ≤ j → j < found → stop j ≡ false
  pub stops : found < limit → stop found ≡ true

pub advance-IsFirst :
    (stop : ℕ → Bool) (rounds cursor limit : ℕ)
    → cursor + rounds ≡ limit
    → IsFirst stop cursor limit (advance stop rounds cursor)
unfolding advance
advance-IsFirst stop zero cursor limit e = record {
  above = omega arith;
  below = omega arith;
  passed = λ j lo hi. absurd (omega arith);
  stops = λ h. absurd (omega arith);
}
advance-IsFirst stop (suc rounds) cursor limit e = elim (Bool-cases (stop cursor)) [
  | inl s ↦ rw s (record {
    above = omega arith;
    below = omega arith;
    passed = λ j lo hi. absurd (omega arith);
    stops = λ h. s;
  })
  | inr s ↦
      let rest = advance-IsFirst stop rounds (cursor + 1) limit (omega arith) in
      let passed : (j : ℕ) → cursor ≤ j → j < advance stop rounds (cursor + 1) → stop j ≡ false =
        λ j lo hi. elim (ℕ_discrete cursor j) [
          | yes p ↦ rw (← p) s
          | no n ↦ rest.passed j (omega arith) hi
        ] in
      rw s (record {
        above = omega (arith, rest.above);
        below = rest.below;
        passed = passed;
        stops = rest.stops;
      })
]
