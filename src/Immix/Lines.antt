-- ===== src/Immix/Lines.antt =====
-- The search for free lines in a block, `get_next_available_lines` of src/policy/immix/immixspace.rs.
-- A line is given by its index in the block, and each table has one entry for a line. `lines` is
-- `Block::LINES`. A loop that runs a cursor up to a limit has a round for each line before the limit.
pub mod Run
pub mod Search
pub mod Normal
pub mod Usable
pub mod Counted
use mmtk_core.Base.{
  ℕ, zero, suc, ◌+◌, ◌-◌, ◌^◌, ◌==◌, leb, ltb, if◌then◌else◌, Bool, true, false, not, ◌&&◌, ◌||◌,
  Option, none, some, update,
}

pub record ImmixSpace : Type 0 where
  pub lines : ℕ
  pub min_reuse_lines : ℕ
  pub rc_enabled : Bool
  pub cm_enabled : Bool
  pub needs_log_bit : Bool
  pub line_unavail_state : ℕ
  pub line_mark_state : ℕ
  pub cm_in_progress_or_final_mark : Bool
  pub barrier_measurement_no_slow : Bool
  pub compressed_ptr_enabled : Bool
  pub mark_bits_per_line : ℕ

-- The metadata of the lines of one block, and the counter of the space.
pub record LineTables : Type 0 where
  pub line_marks : ℕ → ℕ
  pub ref_counts : ℕ → ℕ
  pub unlog_bits : ℕ → ℕ
  pub mark_bits : ℕ → ℕ
  pub reused_lines_consumed : ℕ

-- The first cursor at which the loop breaks; the limit, if it does not.
unfoldable pub advance : (ℕ → Bool) → (rounds cursor : ℕ) → ℕ
advance stop zero cursor = cursor
advance stop (suc rounds) cursor =
    let rest = advance stop rounds (cursor + 1) in if stop cursor then cursor else rest

-- A write of one value to the entries of a range of lines.
unfoldable pub set_range : (ℕ → ℕ) → (start end value : ℕ) → ℕ → ℕ
set_range table start end value i = if leb start i && ltb i end then value else table i

abbrev pub ones : ℕ → ℕ
ones bits = 2 ^ bits - 1

unfoldable pub field_bits_per_line : ImmixSpace → ℕ
field_bits_per_line space = if space.compressed_ptr_enabled then 2 ^ 6 else 2 ^ 5

unfoldable pub clear_field_unlog_table : LineTables → (start end : ℕ) → LineTables
clear_field_unlog_table t start end = record t { unlog_bits = set_range t.unlog_bits start end 0 }

unfoldable pub initialize_field_unlog_table_as_unlogged :
    ImmixSpace → LineTables → (start end : ℕ) → LineTables
initialize_field_unlog_table_as_unlogged space t start end = record t {
  unlog_bits = set_range t.unlog_bits start end (ones (field_bits_per_line space));
}

unfoldable pub initialize_mark_table_as_marked :
    ImmixSpace → LineTables → (start end : ℕ) → LineTables
initialize_mark_table_as_marked space t start end = record t {
  mark_bits = set_range t.mark_bits start end (ones space.mark_bits_per_line);
}

-- What a search does to the bits of the fields in the lines that it has found.
unfoldable pub log_lines : ImmixSpace → Bool → LineTables → (start end : ℕ) → LineTables
unfolding clear_field_unlog_table initialize_field_unlog_table_as_unlogged
log_lines space copy t start end =
    if copy
    then initialize_field_unlog_table_as_unlogged space t start end
    else clear_field_unlog_table t start end

unfoldable pub is_available : ImmixSpace → (ℕ → ℕ) → ℕ → Bool
is_available space marks i =
    not (marks i == space.line_unavail_state) && not (marks i == space.line_mark_state)

-- The loop that finds the end of the free lines, and marks them while marking is concurrent.
unfoldable pub find_limit : ImmixSpace → ℕ → (ℕ → ℕ) → ℕ → ℕ × (ℕ → ℕ)
find_limit space zero marks cursor = (cursor, marks)
find_limit space (suc rounds) marks cursor =
    let marked = if space.cm_enabled then update marks cursor space.line_mark_state else marks in
    let rest = find_limit space rounds marked (cursor + 1) in
    if is_available space marks cursor then rest else (cursor, marks)

-- The lines that are found, from the first to before the second. A hole that is too short makes
-- the search go on behind it, and takes one unit of fuel.
unfoldable pub normal_get_next_available_lines :
    ImmixSpace → (fuel : ℕ) → (copy : Bool) → LineTables → ℕ → Option (ℕ × ℕ) × LineTables
unfolding log_lines
normal_get_next_available_lines space zero copy t search_start = (none, t)
normal_get_next_available_lines space (suc fuel) copy t search_start =
    let start =
      advance (is_available space t.line_marks) (space.lines - search_start) search_start in
    let (end, marks) = find_limit space (space.lines - start) t.line_marks start in
    let t' = record t { line_marks = marks } in
    let rest = normal_get_next_available_lines space fuel copy t' end in
    if start == space.lines
    then (none, t)
    else if ltb (end - start) space.min_reuse_lines
    then (if end == space.lines then (none, t') else rest)
    else if space.needs_log_bit && not space.barrier_measurement_no_slow
    then (some (start, end), log_lines space copy t' start end)
    else (some (start, end), t')

-- Whether all reference counts in the line are zero.
unfoldable pub is_dead : (ℕ → ℕ) → ℕ → Bool
is_dead ref_counts i = ref_counts i == 0

-- The first dead line behind a dead line, or the first line of the block, if that is dead.
unfoldable pub first_free_cursor : (ℕ → Bool) → (rounds i : ℕ) → (find_free_line : Bool) → Option ℕ
first_free_cursor dead zero i find_free_line = none
first_free_cursor dead (suc rounds) i find_free_line =
    let found = first_free_cursor dead rounds (i + 1) true in
    let lost = first_free_cursor dead rounds (i + 1) false in
    if dead i
    then (if i == 0 then some i else if not find_free_line then found else some i)
    else lost

-- What is done with the lines that are found.
unfoldable pub reuse_lines : ImmixSpace → Bool → LineTables → (start end : ℕ) → LineTables
unfolding log_lines initialize_mark_table_as_marked
reuse_lines space copy t start end =
    let logged = if space.needs_log_bit then log_lines space copy t start end else t in
    let counted =
      if copy
      then logged
      else record logged { reused_lines_consumed = logged.reused_lines_consumed + (end - start) } in
    if space.cm_in_progress_or_final_mark
    then initialize_mark_table_as_marked space counted start end
    else counted

unfoldable pub rc_get_next_available_lines :
    ImmixSpace → (fuel : ℕ) → (copy : Bool) → LineTables → ℕ → Option (ℕ × ℕ) × LineTables
unfolding reuse_lines
rc_get_next_available_lines space zero copy t search_start = (none, t)
rc_get_next_available_lines space (suc fuel) copy t search_start =
    let dead = is_dead t.ref_counts in
    elim (first_free_cursor dead (space.lines - search_start) search_start false) [
      | none ↦ (none, t)
      | some start ↦
          let end = advance (λ i. not (dead i)) (space.lines - (start + 1)) (start + 1) in
          let rest = rc_get_next_available_lines space fuel copy t end in
          if ltb (end - start) space.min_reuse_lines
          then (if end == space.lines then (none, t) else rest)
          else (some (start, end), reuse_lines space copy t start end)
    ]

unfoldable pub get_next_available_lines :
    ImmixSpace → (fuel : ℕ) → (copy : Bool) → LineTables → ℕ → Option (ℕ × ℕ) × LineTables
get_next_available_lines space fuel copy t search_start =
    if space.rc_enabled
    then rc_get_next_available_lines space fuel copy t search_start
    else normal_get_next_available_lines space fuel copy t search_start
