-- ===== src/Immix/Holes.antt =====
-- The dead lines and the holes of a block by its reference counts, src/policy/immix/block.rs. `dead`
-- is `RCArray::is_dead`, and `lines` is `Block::LINES`.
pub mod Dead
pub mod Found
use mmtk_core.Base.{
  ℕ, zero, suc, ◌+◌, ◌-◌, ◌==◌, leb, ltb, if◌then◌else◌, Bool, true, false, not, ◌||◌, Option, none,
  some, List, [], ◌∷◌,
}
use mmtk_core.Immix.Lines.{advance, first_free_cursor}

unfoldable pub count_dead : (ℕ → Bool) → (rounds i dead_lines : ℕ) → ℕ
count_dead dead zero i dead_lines = dead_lines
count_dead dead (suc rounds) i dead_lines =
    count_dead dead rounds (i + 1) (if dead i then dead_lines + 1 else dead_lines)

unfoldable pub calc_dead_lines : (ℕ → Bool) → ℕ → ℕ
calc_dead_lines dead lines = count_dead dead lines 0 0

unfoldable pub seek_holes :
    (ℕ → Bool) → (min_reuse_lines rounds i : ℕ) → (found_free_line : Bool) → (free_lines : ℕ) → Bool
seek_holes dead min_reuse_lines zero i found_free_line free_lines = false
seek_holes dead min_reuse_lines (suc rounds) i found_free_line free_lines =
    let counts = i == 0 || found_free_line in
    let free_lines' = if counts then free_lines + 1 else free_lines in
    let found' = if counts then found_free_line else true in
    let later = seek_holes dead min_reuse_lines rounds (i + 1) found' free_lines' in
    let lost = seek_holes dead min_reuse_lines rounds (i + 1) false 0 in
    if dead i then (if leb min_reuse_lines free_lines' then true else later) else lost

unfoldable pub has_holes : (ℕ → Bool) → (lines min_reuse_lines : ℕ) → Bool
has_holes dead lines min_reuse_lines = seek_holes dead min_reuse_lines lines 0 false 0

-- The numbers that the function is called with, one after the other.
unfoldable pub holes_from : (ℕ → Bool) → (lines fuel i : ℕ) → List ℕ
holes_from dead lines zero i = []
holes_from dead lines (suc fuel) i =
    let j = advance (λ k. not (dead k)) (lines - (i + 1)) (i + 1) in
    let behind = holes_from dead lines fuel j in
    let next = holes_from dead lines fuel (i + 1) in
    if ltb i lines then (if dead i then (j - i) ∷ behind else next) else []

unfoldable pub iter_holes : (ℕ → Bool) → (lines fuel : ℕ) → List ℕ
iter_holes dead lines fuel = holes_from dead lines fuel 0

unfoldable pub search_next_hole : (ℕ → Bool) → (lines start : ℕ) → Option ℕ
search_next_hole dead lines start = elim (first_free_cursor dead (lines - start) start false) [
  | none ↦ none
  | some first ↦ some (advance (λ i. not (dead i)) (lines - (first + 1)) (first + 1))
]

-- `none` stands for a loop that runs out of fuel. The cursor is moved before it is compared.
unfoldable pub calc_holes_from :
    (ℕ → Bool) → (lines min_reuse_lines fuel cursor holes : ℕ) → Option ℕ
calc_holes_from dead lines min_reuse_lines zero cursor holes = none
calc_holes_from dead lines min_reuse_lines (suc fuel) cursor holes =
    elim (search_next_hole dead lines cursor) [
      | none ↦ some holes
      | some end ↦
          let cursor' = end in
          calc_holes_from dead lines min_reuse_lines fuel cursor'
            (if leb min_reuse_lines (end - cursor') then holes + 1 else holes)
    ]

unfoldable pub calc_holes : (ℕ → Bool) → (lines min_reuse_lines fuel : ℕ) → Option ℕ
calc_holes dead lines min_reuse_lines fuel = calc_holes_from dead lines min_reuse_lines fuel 0 0
