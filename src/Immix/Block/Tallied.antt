-- ===== src/Immix/Block/Tallied.antt =====
-- The loop of `sweep` over the lines of a block.
use mmtk_core.Base.{
  ℕ, zero, suc, ◌+◌, ◌-◌, ◌≡◌, refl, sym, ap, ◌∙◌, ◌==◌, ltb, inl, inr, if◌then◌else◌, Bool, true,
  false, not, ◌&&◌, ◌||◌, Bool-cases, arith, ℕ_discrete, update, count_below,
}
use mathlib.Core.Path.{fun_ext}
use native.Mathlib.Numerals.{add-one}
use mmtk_core.Immix.Block.{Tally, sweep_line, sweep_lines}

same_tally :
    {m m' h h' : ℕ} {p p' : Bool} {l l' : ℕ → ℕ}
    → m ≡ m'
    → h ≡ h'
    → p ≡ p'
    → l ≡ l'
    → let t : Tally = record {
      marked_lines = m;
      holes = h;
      prev_line_is_marked = p;
      line_marks = l;
    } in
      let t' : Tally = record {
        marked_lines = m';
        holes = h';
        prev_line_is_marked = p';
        line_marks = l';
      } in
      t ≡ t'
same_tally a b c d =
    λ i. record { marked_lines = a i; holes = b i; prev_line_is_marked = c i; line_marks = d i }

count_one :
    (n : ℕ) (f : ℕ → Bool)
    → count_below (λ b. b) (n + 1) f ≡ count_below (λ b. b) n f + (if f n then 1 else 0)
unfolding count_below
count_one n f = rw add-one refl

module _ (line_mark_state : ℕ) (marks : ℕ → ℕ) where
  abbrev pub is_marked : ℕ → Bool
  is_marked i = marks i == line_mark_state

  -- A line that is not marked, and is the first of the block or behind a marked one.
  abbrev pub starts_hole : ℕ → Bool
  starts_hole i = not (is_marked i) && (i == 0 || is_marked (i - 1))

  abbrev pub marked_below : ℕ → ℕ
  marked_below n = count_below (λ b. b) n is_marked

  abbrev pub holes_below : ℕ → ℕ
  holes_below n = count_below (λ b. b) n starts_hole

  -- The marks that are left: marks of lines that are not marked are cleared in two of 127 states.
  abbrev pub marks_left : ℕ → ℕ → ℕ
  marks_left n i = if ltb i n && (not (is_marked i) && ltb 125 line_mark_state) then 0 else marks i

  abbrev pub tally : ℕ → Tally
  tally n = record {
    marked_lines = marked_below n;
    holes = holes_below n;
    prev_line_is_marked = n == 0 || is_marked (n - 1);
    line_marks = marks_left n;
  }

  marks_step_marked : (i : ℕ) → is_marked i ≡ true → marks_left i ≡ marks_left (i + 1)
  marks_step_marked i h =
      fun_ext λ j. elim (ℕ_discrete j i) [ yes e ↦ rw (e, h) (ground arith) | no n ↦ ground arith ]

  marks_step_left :
      (i : ℕ)
      → is_marked i ≡ false
      → (if ltb 125 line_mark_state then update (marks_left i) i 0 else marks_left i)
        ≡ marks_left (i + 1)
  marks_step_left i h = elim (Bool-cases (ltb 125 line_mark_state)) [
    | inl late ↦ rw late (
        fun_ext
          λ j. elim (ℕ_discrete j i) [ yes e ↦ rw (e, h) (ground arith) | no n ↦ ground arith ])
    | inr early ↦ rw early (fun_ext λ j. ground arith)
  ]

  marked_lines : (i : ℕ) → is_marked i ≡ true → marked_below i + 1 ≡ marked_below (i + 1)
  marked_lines i h = sym (count_one i is_marked ∙ rw h refl)

  marked_holes : (i : ℕ) → is_marked i ≡ true → holes_below i ≡ holes_below (i + 1)
  marked_holes i h = sym (count_one i starts_hole ∙ rw h (omega arith))

  unmarked_lines : (i : ℕ) → is_marked i ≡ false → marked_below i ≡ marked_below (i + 1)
  unmarked_lines i h = sym (count_one i is_marked ∙ rw h (omega arith))

  unmarked_holes :
      (i : ℕ)
      → is_marked i ≡ false
      → (if i == 0 || is_marked (i - 1) then holes_below i + 1 else holes_below i)
        ≡ holes_below (i + 1)
  unmarked_holes i h = sym (count_one i starts_hole ∙ rw h (ground arith))

  sweep_line-tally : (i : ℕ) → sweep_line line_mark_state i (tally i) ≡ tally (i + 1)
  unfolding sweep_line
  sweep_line-tally i =
      let here : marks_left i i ≡ marks i = ground arith in
      let back : i + 1 - 1 ≡ i = omega arith in
      let later : (i + 1 == 0) ≡ false = ground arith in
      elim (Bool-cases (is_marked i)) [
        | inl h ↦
            rw (here, h)
              (same_tally (marked_lines i h) (marked_holes i h) (rw (later, back, h) refl)
                (marks_step_marked i h))
        | inr h ↦
            rw (here, h)
              (same_tally (unmarked_lines i h) (unmarked_holes i h) (rw (later, back, h) refl)
                (marks_step_left i h))
      ]

  pub sweep_lines-tally :
      (rounds i : ℕ) → sweep_lines line_mark_state rounds i (tally i) ≡ tally (i + rounds)
  unfolding sweep_lines
  sweep_lines-tally zero i = ap tally (omega arith)
  sweep_lines-tally (suc rounds) i =
      ap (sweep_lines line_mark_state rounds (i + 1)) (sweep_line-tally i)
      ∙ sweep_lines-tally rounds (i + 1)
      ∙ ap tally (omega arith)

  tally-zero :
      tally 0
      ≡ record { marked_lines = 0; holes = 0; prev_line_is_marked = true; line_marks = marks }
  unfolding count_below
  tally-zero = same_tally refl refl refl (fun_ext λ j. ground arith)

  -- The whole loop.
  pub sweep_lines_lem :
      (lines : ℕ)
      → sweep_lines line_mark_state lines 0
          (record { marked_lines = 0; holes = 0; prev_line_is_marked = true; line_marks = marks })
        ≡ tally lines
  sweep_lines_lem lines =
      ap (sweep_lines line_mark_state lines 0) (sym tally-zero)
      ∙ sweep_lines-tally lines 0
      ∙ ap tally (omega arith)
