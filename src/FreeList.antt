-- ===== src/FreeList.antt =====
-- The trait `FreeList` of src/util/freelist.rs, on the table of `IntArrayFreeList`,
-- src/util/int_array_freelist.rs. An `i32` is its word of 32 bits, so that -1 is 2 ^ 32 - 1; a mask of
-- low bits is a remainder by a power of two. The table is a function from indices to words.
pub mod Entries
pub mod Fields
pub mod Sizes
pub mod Ring
pub mod Moves
pub mod Push
pub mod Sized
pub mod Initialize
pub mod Fit
pub mod Split
pub mod Alloc
use mmtk_core.Base.{
  ℕ, zero, suc, ◌+◌, ◌-◌, ◌*◌, ◌/◌, ◌%◌, ◌^◌, ◌==◌, ltb, leb, if◌then◌else◌, Bool, true, false, not,
  ◌&&◌, Option, none, some, update,
}

abbrev pub failure : ℕ
failure = 2 ^ 32 - 1

abbrev pub max_heads : ℕ
max_heads = 128

abbrev pub max_units : ℕ
max_units = 2 ^ 30 - 1 - max_heads - 1

abbrev pub add32 : ℕ → ℕ → ℕ
add32 x y = (x + y) % 2 ^ 32

abbrev pub sub32 : ℕ → ℕ → ℕ
sub32 x y = (x + 2 ^ 32 - y) % 2 ^ 32

-- `NEXT_MASK`, `PREV_MASK` and `SIZE_MASK`: the 30 low bits.
abbrev pub low_bits : ℕ → ℕ
low_bits w = w % 2 ^ 30

abbrev pub with_low_bits : ℕ → ℕ → ℕ
with_low_bits w x = w / 2 ^ 30 * 2 ^ 30 + x % 2 ^ 30

-- `FREE_MASK` and `MULTI_MASK`: the bit 31.
abbrev pub high_bit : ℕ → Bool
high_bit w = w / 2 ^ 31 % 2 == 1

abbrev pub with_high_bit : ℕ → ℕ
with_high_bit w = w % 2 ^ 31 + 2 ^ 31

abbrev pub without_high_bit : ℕ → ℕ
without_high_bit w = w % 2 ^ 31

-- `COALESC_MASK`: the bit 30.
abbrev pub coalesc_bit : ℕ → ℕ
coalesc_bit w = w / 2 ^ 30 % 2

pub record IntArrayFreeList : Type 0 where
  pub head : ℕ
  pub heads : ℕ
  pub table : ℕ → ℕ

abbrev pub lo_index : ℕ → ℕ → ℕ
lo_index heads unit = add32 unit heads * 2 % 2 ^ 32

abbrev pub hi_index : ℕ → ℕ → ℕ
hi_index heads unit = add32 (add32 unit heads * 2 % 2 ^ 32) 1

unfoldable pub get_lo_entry : IntArrayFreeList → ℕ → ℕ
get_lo_entry f unit = f.table (lo_index f.heads unit)

unfoldable pub get_hi_entry : IntArrayFreeList → ℕ → ℕ
get_hi_entry f unit = f.table (hi_index f.heads unit)

unfoldable pub set_lo_entry : IntArrayFreeList → ℕ → ℕ → IntArrayFreeList
set_lo_entry f unit value = record f { table = update f.table (lo_index f.heads unit) value }

unfoldable pub set_hi_entry : IntArrayFreeList → ℕ → ℕ → IntArrayFreeList
set_hi_entry f unit value = record f { table = update f.table (hi_index f.heads unit) value }

unfoldable pub get_size : IntArrayFreeList → ℕ → ℕ
get_size f unit =
    if high_bit (get_hi_entry f unit) then low_bits (get_hi_entry f (add32 unit 1)) else 1

unfoldable pub set_size : IntArrayFreeList → ℕ → ℕ → IntArrayFreeList
set_size f unit size =
    let hi = get_hi_entry f unit in
    if ltb 1 size
    then (let f₁ = set_hi_entry f unit (with_high_bit hi) in
        let f₂ = set_hi_entry f₁ (add32 unit 1) (with_high_bit size) in
        set_hi_entry f₂ (sub32 (add32 unit size) 1) (with_high_bit size))
    else set_hi_entry f unit (without_high_bit hi)

unfoldable pub get_free : IntArrayFreeList → ℕ → Bool
get_free f unit = high_bit (get_lo_entry f unit)

abbrev pub with_free : Bool → ℕ → ℕ
with_free is_free lo = if is_free then with_high_bit lo else without_high_bit lo

unfoldable pub set_free : IntArrayFreeList → ℕ → Bool → IntArrayFreeList
set_free f unit is_free =
    let f₁ = set_lo_entry f unit (with_free is_free (get_lo_entry f unit)) in
    let size = get_size f₁ unit in
    let last = sub32 (add32 unit size) 1 in
    if ltb 1 size then set_lo_entry f₁ last (with_free is_free (get_lo_entry f₁ last)) else f₁

-- A link that is no unit is a head.
abbrev pub link : IntArrayFreeList → ℕ → ℕ
link f unit = if leb unit max_units then unit else f.head

unfoldable pub get_next : IntArrayFreeList → ℕ → ℕ
get_next f unit = link f (low_bits (get_hi_entry f unit))

unfoldable pub get_prev : IntArrayFreeList → ℕ → ℕ
get_prev f unit = link f (low_bits (get_lo_entry f unit))

unfoldable pub set_next : IntArrayFreeList → ℕ → ℕ → IntArrayFreeList
set_next f unit next = set_hi_entry f unit (with_low_bits (get_hi_entry f unit) next)

unfoldable pub set_prev : IntArrayFreeList → ℕ → ℕ → IntArrayFreeList
set_prev f unit prev = set_lo_entry f unit (with_low_bits (get_lo_entry f unit) prev)

unfoldable pub get_left : IntArrayFreeList → ℕ → ℕ
get_left f unit =
    let hi = get_hi_entry f (sub32 unit 1) in
    if high_bit hi then sub32 unit (low_bits hi) else sub32 unit 1

unfoldable pub get_right : IntArrayFreeList → ℕ → ℕ
get_right f unit = add32 unit (get_size f unit)

unfoldable pub is_coalescable : IntArrayFreeList → ℕ → Bool
is_coalescable f unit = coalesc_bit (get_lo_entry f unit) == 0

unfoldable pub clear_uncoalescable : IntArrayFreeList → ℕ → IntArrayFreeList
clear_uncoalescable f unit =
    let lo = get_lo_entry f unit in set_lo_entry f unit (lo - coalesc_bit lo * 2 ^ 30)

unfoldable pub set_uncoalescable : IntArrayFreeList → ℕ → IntArrayFreeList
set_uncoalescable f unit =
    let lo = get_lo_entry f unit in set_lo_entry f unit (lo - coalesc_bit lo * 2 ^ 30 + 2 ^ 30)

unfoldable pub add_to_free : IntArrayFreeList → ℕ → IntArrayFreeList
add_to_free f unit =
    let f₁ = set_free f unit true in
    let next = get_next f₁ f₁.head in
    let f₂ = set_next f₁ unit next in
    let f₃ = set_next f₂ f₂.head unit in let f₄ = set_prev f₃ unit f₃.head in set_prev f₄ next unit

unfoldable pub __remove_from_free : IntArrayFreeList → ℕ → IntArrayFreeList
__remove_from_free f unit =
    let next = get_next f unit in
    let prev = get_prev f unit in set_prev (set_next f prev next) next prev

unfoldable pub __split : IntArrayFreeList → ℕ → ℕ → IntArrayFreeList
__split f unit size =
    let basesize = get_size f unit in
    let f₁ = set_size f unit size in
    let f₂ = set_size f₁ (add32 unit size) (sub32 basesize size) in add_to_free f₂ (add32 unit size)

unfoldable pub __coalesce : IntArrayFreeList → ℕ → ℕ → IntArrayFreeList
__coalesce f start end =
    let f₁ = if get_free f end then __remove_from_free f end else f in
    let f₂ = if get_free f₁ start then __remove_from_free f₁ start else f₁ in
    set_size f₂ start (add32 (sub32 end start) (get_size f₂ end))

-- What is returned, and the list after the call. A request is not negative.
unfoldable pub __alloc : IntArrayFreeList → (size unit unit_size : ℕ) → ℕ × IntArrayFreeList
__alloc f size unit unit_size =
    let f₁ = if ltb size unit_size then __split f unit size else f in
    if leb size unit_size
    then (unit, set_free (__remove_from_free f₁ unit) unit false)
    else (unit, f)

-- The loop of `alloc_first_fit`: the unit that it stops at and the size last read.
unfoldable pub first_fit : ℕ → IntArrayFreeList → (size unit s : ℕ) → Option (ℕ × ℕ)
first_fit zero f size unit s = none
first_fit (suc fuel) f size unit s =
    let next = get_next f unit in
    let s' = get_size f next in
    let rest = first_fit fuel f size next s' in
    if next == f.head then some (next, s) else if ltb s' size then rest else some (next, s')

unfoldable pub finish_first_fit : IntArrayFreeList → ℕ → ℕ × ℕ → ℕ × IntArrayFreeList
finish_first_fit f size (unit, s) = if unit == f.head then (failure, f) else __alloc f size unit s

-- None when the fuel runs out.
unfoldable pub alloc_first_fit : ℕ → IntArrayFreeList → ℕ → Option (ℕ × IntArrayFreeList)
alloc_first_fit fuel f size = elim (first_fit fuel f size f.head 0) [
  | none ↦ none
  | some found ↦ some (finish_first_fit f size found)
]

unfoldable pub alloc_from_unit : IntArrayFreeList → (size unit : ℕ) → ℕ × IntArrayFreeList
alloc_from_unit f size unit =
    let s = get_size f unit in
    if get_free f unit && leb size s then __alloc f size unit s else (failure, f)

unfoldable pub free : IntArrayFreeList → ℕ → Bool → ℕ × IntArrayFreeList
free f unit return_coalesced_size =
    let left = get_left f unit in
    let start = if is_coalescable f unit && get_free f left then left else unit in
    let right = get_right f unit in
    let end = if is_coalescable f right && get_free f right then right else unit in
    let f₁ = if start == end then f else __coalesce f start end in
    let freed = if return_coalesced_size then get_size f₁ start else get_size f unit in
    (freed, add_to_free f₁ start)
