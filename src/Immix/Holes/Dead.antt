-- ===== src/Immix/Holes/Dead.antt =====
-- The holes and the number of dead lines.
use mmtk_core.Base.{
  ℕ, zero, suc, ◌+◌, ◌-◌, ◌≤◌, ◌<◌, ◌≡◌, refl, sym, ap, ◌∙◌, ◌==◌, leb, ltb, inl, inr, Bool, true,
  false, not, none, some, List, [], ◌∷◌, Bool-cases, not-false, ℕ_discrete, ◌⊎◌, tests, arith,
}
use mmtk_core.Immix.Lines.{advance, first_free_cursor}
use mmtk_core.Immix.Lines.Run.{advance-IsFirst}
use mmtk_core.Immix.Holes.{
  count_dead, calc_dead_lines, holes_from, iter_holes, search_next_hole, calc_holes_from,
  calc_holes,
}

abbrev pub sum : List ℕ → ℕ
sum [] = 0
sum (x ∷ xs) = x + sum xs

module _ (dead : ℕ → Bool) where
  count_dead-add : (rounds i n : ℕ) → count_dead dead rounds i n ≡ n + count_dead dead rounds i 0
  unfolding count_dead
  count_dead-add zero i n = omega arith
  count_dead-add (suc rounds) i n = elim (Bool-cases (dead i)) [
    | inl d ↦
        rw d (omega (arith, count_dead-add rounds (i + 1) (n + 1), count_dead-add rounds (i + 1) 1))
    | inr l ↦ rw l (count_dead-add rounds (i + 1) n)
  ]

  -- A run of dead lines at the front.
  count_dead-run :
      (run rounds total i j : ℕ)
      → total ≡ run + rounds
      → j ≡ i + run
      → ((k : ℕ) → i ≤ k → k < j → dead k ≡ true)
      → count_dead dead total i 0 ≡ run + count_dead dead rounds j 0
  unfolding count_dead
  count_dead-run zero rounds total i j t e h =
      let t' : total ≡ rounds = omega arith in
      let e' : j ≡ i = omega arith in rw (t', e') (omega arith)
  count_dead-run (suc run) rounds zero i j t e h = absurd (omega arith)
  count_dead-run (suc run) rounds (suc total) i j t e h =
      let rest =
        count_dead-run run rounds total (i + 1) j (omega arith) (omega arith)
          (λ k lo hi. h k (omega arith) hi) in
      rw (h i (omega arith) (omega arith)) (omega (arith, rest, count_dead-add total (i + 1) 1))

  run_done :
      (lines fuel i : ℕ)
      → dead i ≡ true
      → i < lines
      → lines < i + suc fuel
      → ((j : ℕ)
          → j ≤ lines
          → lines < j + fuel
          → sum (holes_from dead lines fuel j) ≡ count_dead dead (lines - j) j 0)
      → let j = advance (λ k. not (dead k)) (lines - (i + 1)) (i + 1) in
        j - i + sum (holes_from dead lines fuel j) ≡ count_dead dead (lines - i) i 0
  run_done lines fuel i there more enough later =
      let stop = λ (k : ℕ). not (dead k) in
      let j = advance stop (lines - (i + 1)) (i + 1) in
      let first = advance-IsFirst stop (lines - (i + 1)) (i + 1) lines (omega arith) in
      let above : i + 1 ≤ j = first.above in
      let below : j ≤ lines = first.below in
      let all_dead : (k : ℕ) → i ≤ k → k < j → dead k ≡ true = λ k lo hi. elim (ℕ_discrete i k) [
        | yes e ↦ rw (← e) there
        | no n ↦ not-false (dead k) (first.passed k (omega arith) hi)
      ] in
      let counted =
        count_dead-run (j - i) (lines - j) (lines - i) i j (omega (arith, above, below))
          (omega (arith, above)) all_dead in
      ap (λ n. j - i + n) (later j below (omega (arith, above))) ∙ sym counted

  sum-holes_from :
      (lines fuel i : ℕ)
      → i ≤ lines
      → lines < i + fuel
      → sum (holes_from dead lines fuel i) ≡ count_dead dead (lines - i) i 0
  unfolding holes_from count_dead
  sum-holes_from lines zero i le enough = absurd (omega arith)
  sum-holes_from lines (suc fuel) i le enough = elim (Bool-cases (ltb i lines)) [
    | inr over ↦ let none_left : lines - i ≡ 0 = omega (tests, over) in rw (over, none_left) refl
    | inl more ↦ rw more (elim (Bool-cases (dead i)) [
      | inr alive ↦
          let one_more : lines - i ≡ suc (lines - (i + 1)) = omega (tests, more) in
          rw (alive, one_more)
            (rw (count_dead, alive)
              (sum-holes_from lines fuel (i + 1) (omega (tests, more)) (omega arith)))
      | inl there ↦
          rw there
            (run_done lines fuel i there (omega (tests, more)) enough (sum-holes_from lines fuel))
    ])
  ]

-- With fuel for more rounds than there are lines, the lengths that `iter_holes` calls its function
-- with add up to the dead lines that `calc_dead_lines` counts.
pub iter_holes-calc_dead_lines :
    (dead : ℕ → Bool) (lines fuel : ℕ)
    → lines < fuel
    → sum (iter_holes dead lines fuel) ≡ calc_dead_lines dead lines
unfolding iter_holes calc_dead_lines
iter_holes-calc_dead_lines dead lines fuel enough =
    let same : lines - 0 ≡ lines = omega arith in
    rw same at (sum-holes_from dead lines fuel 0 (omega arith) (omega arith))

abbrev IsAhead : (ℕ → Bool) → (rounds i : ℕ) → Bool → Type 0
IsAhead dead rounds i found =
    (first_free_cursor dead rounds i found ≡ none)
    ⊎ ((c : ℕ) × (first_free_cursor dead rounds i found ≡ some c) × (i ≤ c) × (c < i + rounds))

ahead_by_one :
    (dead : ℕ → Bool) (rounds i : ℕ) (f : Bool)
    → IsAhead dead rounds (i + 1) f
    → (first_free_cursor dead rounds (i + 1) f ≡ none)
      ⊎ ((c : ℕ) × (first_free_cursor dead rounds (i + 1) f ≡ some c)
          × (i ≤ c)
          × (c < i + suc rounds))
ahead_by_one dead rounds i f (inl h) = inl h
ahead_by_one dead rounds i f (inr (c, e, lo, hi)) = inr (c, e, omega arith, omega arith)

-- Where a search ends, if it finds a hole.
search_next_hole-IsAhead :
    (dead : ℕ → Bool) (rounds i : ℕ) (found : Bool) → IsAhead dead rounds i found
unfolding first_free_cursor
search_next_hole-IsAhead dead zero i found = inl refl
search_next_hole-IsAhead dead (suc rounds) i found = elim (Bool-cases (dead i)) [
  | inl d ↦ rw d (elim (Bool-cases (i == 0)) [
    | inl front ↦ rw front (inr (i, refl, omega arith, omega arith))
    | inr inner ↦ rw inner (elim (Bool-cases found) [
      | inl f ↦ rw f (inr (i, refl, omega arith, omega arith))
      | inr f ↦
          rw f (ahead_by_one dead rounds i true (search_next_hole-IsAhead dead rounds (i + 1) true))
    ])
  ])
  | inr a ↦
      rw a (ahead_by_one dead rounds i false (search_next_hole-IsAhead dead rounds (i + 1) false))
]

not_enough : (n end : ℕ) → 0 < n → leb n (end - end) ≡ false
not_enough n end room = ground arith

calc_holes_from-zero :
    (dead : ℕ → Bool) (lines n fuel cursor : ℕ)
    → 0 < n
    → cursor ≤ lines
    → lines < cursor + fuel
    → calc_holes_from dead lines n fuel cursor 0 ≡ some 0
unfolding calc_holes_from search_next_hole
calc_holes_from-zero dead lines n zero cursor room le enough = absurd (omega arith)
calc_holes_from-zero dead lines n (suc fuel) cursor room le enough =
    elim (search_next_hole-IsAhead dead (lines - cursor) cursor false) [
      | inl none_found ↦ rw (calc_holes_from, none_found) refl
      | inr (c, found, lo, hi) ↦
          let end = advance (λ i. not (dead i)) (lines - (c + 1)) (c + 1) in
          let first =
            advance-IsFirst (λ i. not (dead i)) (lines - (c + 1)) (c + 1) lines (omega arith) in
          let none_counted : leb n (end - end) ≡ false = not_enough n end room in
          rw (calc_holes_from, found, none_counted)
            (calc_holes_from-zero dead lines n fuel end room first.below
              (omega (arith, first.above)))
    ]

-- For a positive `min_reuse_lines`, with fuel for more rounds than there are lines, the loop of
-- `calc_holes` ends, and counts no hole, whatever lines are dead.
pub calc_holes-zero :
    (dead : ℕ → Bool) (lines min_reuse_lines fuel : ℕ)
    → 0 < min_reuse_lines
    → lines < fuel
    → calc_holes dead lines min_reuse_lines fuel ≡ some 0
unfolding calc_holes
calc_holes-zero dead lines min_reuse_lines fuel room enough =
    calc_holes_from-zero dead lines min_reuse_lines fuel 0 room (omega arith) (omega arith)
