-- ===== src/MarkSweep/Bins.antt =====
-- Size classes of src/policy/marksweepspace/native_ms/block_list.rs: `mi_bin_from_size` picks the
-- block list for an allocation. Sizes are in bytes, on a 64-bit machine.
use mmtk_core.Base.{
  ℕ, ◌⊎◌, inl, inr, dec_lt, zero, suc, ◌+◌, ◌-◌, ◌*◌, ◌/◌, ◌%◌, ◌^◌, ◌≤◌, ◌<◌, ◌≡◌, refl, Bool,
  true, ◌&&◌, ◌||◌, List, [], ◌∷◌, if◌then◌else◌, ltb, leb, ◌==◌, get_or, arith, all_range,
  all_range_sound,
}

abbrev pub mi_intptr_size : ℕ
mi_intptr_size = 8

abbrev pub max_bin : ℕ
max_bin = 48

abbrev pub max_bin_size : ℕ
max_bin_size = 65536

-- The argument of `BlockList::new` for each bin, in words.
abbrev pub bin_words : List ℕ
bin_words =
    1 ∷ 1 ∷ 2 ∷ 3 ∷ 4 ∷ 5 ∷ 6 ∷ 7 ∷ 8 ∷ 10 ∷ 12 ∷ 14 ∷ 16 ∷ 20 ∷ 24 ∷ 28 ∷ 32 ∷ 40 ∷ 48 ∷ 56 ∷ 64
    ∷ 80 ∷ 96 ∷ 112 ∷ 128 ∷ 160 ∷ 192 ∷ 224 ∷ 256 ∷ 320 ∷ 384 ∷ 448 ∷ 512 ∷ 640 ∷ 768 ∷ 896 ∷ 1024
    ∷ 1280 ∷ 1536 ∷ 1792 ∷ 2048 ∷ 2560 ∷ 3072 ∷ 3584 ∷ 4096 ∷ 5120 ∷ 6144 ∷ 7168 ∷ 8192 ∷ []

-- The size of the cells in the blocks of a bin: `new_empty_block_lists()[bin].size`.
unfoldable pub bin_size : ℕ → ℕ
bin_size bin = get_or bin_words bin 0 * mi_intptr_size

-- The number of binary digits of `x`, if it has at most `fuel`.
unfoldable pub bit_length : ℕ → ℕ → ℕ
bit_length zero x = 0
bit_length (suc fuel) x = let rest = bit_length fuel (x / 2) in if x == 0 then 0 else 1 + rest

-- `usize::leading_zeros`
unfoldable pub leading_zeros : ℕ → ℕ
unfolding bit_length
leading_zeros x = 64 - bit_length 64 x

-- `size.div_ceil(MI_INTPTR_SIZE)`
unfoldable pub mi_wsize_from_size : ℕ → ℕ
mi_wsize_from_size size = size / mi_intptr_size + (if size % mi_intptr_size == 0 then 0 else 1)

-- `mi_bin_from_size` after the first line, on the number of words. `b` and `bin` are of type `u8`.
unfoldable pub bin_of_words : ℕ → ℕ
unfolding leading_zeros
bin_of_words wsize =
    let w = wsize - 1 in
    let b = (64 - 1 - leading_zeros w) % 256 in
    if leb wsize 1
    then 1
    else if leb wsize 8
    then wsize % 256
    else (b * 4 % 256 + w / 2 ^ (b - 2) % 4 % 256) % 256 - 3

unfoldable pub mi_bin_from_size : ℕ → ℕ
unfolding mi_wsize_from_size
mi_bin_from_size size = bin_of_words (mi_wsize_from_size size)

-- What the table is checked for, at each number of words.
abbrev fits_tightly : ℕ → Bool
fits_tightly w =
    let bin = bin_of_words w in
    leb 1 bin
    && leb bin max_bin
    && leb w (get_or bin_words bin 0)
    && (bin == 1 || ltb (get_or bin_words (bin - 1) 0) w)

all_words_fit : all_range 8193 0 fits_tightly ≡ true
unfolding all_range bin_of_words
all_words_fit = refl

words-fit :
    (w : ℕ)
    → w ≤ 8192
    → (1 ≤ bin_of_words w)
      × (bin_of_words w ≤ max_bin)
      × (w ≤ get_or bin_words (bin_of_words w) 0)
      × (1 < bin_of_words w → get_or bin_words (bin_of_words w - 1) 0 < w)
words-fit w h =
    let t = all_range_sound 8193 0 fits_tightly all_words_fit w (omega arith) (omega arith) in
    ground arith

-- The words are just enough for the bytes.
mi_wsize_lem :
    (size : ℕ) → (size ≤ mi_wsize_from_size size * 8) × (mi_wsize_from_size size * 8 < size + 8)
unfolding mi_wsize_from_size
mi_wsize_lem size = ground arith

-- For every size up to the largest, the bin is one of 1 to 48, its cells hold the size, and it is bin 1
-- or the cells of the bin before it do not: no bin with smaller cells serves.
pub mi_bin_from_size-tight :
    (size : ℕ)
    → size ≤ max_bin_size
    → (1 ≤ mi_bin_from_size size)
      × (mi_bin_from_size size ≤ max_bin)
      × (size ≤ bin_size (mi_bin_from_size size))
      × ((mi_bin_from_size size ≡ 1) ⊎ (bin_size (mi_bin_from_size size - 1) < size))
unfolding mi_bin_from_size bin_size
mi_bin_from_size-tight size h =
    let k = mi_wsize_lem size in
    let f = words-fit (mi_wsize_from_size size) (omega arith) in
    let before : (mi_bin_from_size size ≡ 1) ⊎ (bin_size (mi_bin_from_size size - 1) < size) =
      elim (dec_lt 1 (mi_bin_from_size size)) [
        | yes more ↦ inr (omega (arith, f.3 more))
        | no less ↦ inl (omega arith)
      ] in
    (f.0, f.1, omega arith, before)
