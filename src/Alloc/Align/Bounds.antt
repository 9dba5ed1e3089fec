-- ===== src/Alloc/Align/Bounds.antt =====
-- Aligned addresses, src/util/alloc/allocator.rs.
use mmtk_core.Base.{
  suc, ℕ, ◌+◌, ◌-◌, ◌*◌, ◌/◌, ◌%◌, ◌^◌, ◌≤◌, ◌<◌, ◌≡◌, inl, inr, sym, ap, ◌∙◌, leb, Bool, true,
  false, ◌||◌, arith, bit_and_ones, pow_split, dec_lt, Bool-cases,
}
use native.Mathlib.Nat.{
  pow-suc, pow-le-pow_right, one-le-pow, div-add-mod', mod-lt, lt_of_mul-lt-mul_right,
  mul-le-mul_right, add-mul-mod_self_left, mul-mod_left, mod_self,
}
use mmtk_core.Alloc.Align.{
  VmBinding, wrapping_sub, alignment_delta, align_allocation_no_fill, align_allocation_inner,
  get_maximum_aligned_size, get_maximum_aligned_size_inner,
}

-- Bytes whose address plus the offset is a multiple of the alignment.
abbrev pub IsAligned : (address alignment offset : ℕ) → Type 0
IsAligned address alignment offset = (address + offset) % alignment ≡ 0

-- A multiple of a power of two is a multiple of the smaller ones.
multiple_of : (j k x : ℕ) → j ≤ k → x % 2 ^ k ≡ 0 → x % 2 ^ j ≡ 0
multiple_of j k x h e =
    let parts : x ≡ x / 2 ^ k * 2 ^ (k - j) * 2 ^ j =
      omega (arith, ap (λ t. x / 2 ^ k * t) (pow_split j k h), div-add-mod' x (2 ^ k), e) in
    ap (λ t. t % 2 ^ j) parts ∙ mul-mod_left (x / 2 ^ k * 2 ^ (k - j)) (2 ^ j)

-- Between multiples there is room for one more step.
room : (m x y : ℕ) → x % m ≡ 0 → y % m ≡ 0 → x < y → x + m ≤ y
room m x y ex ey lt =
    let whole_x : x ≡ x / m * m = omega (arith, div-add-mod' x m, ex) in
    let whole_y : y ≡ y / m * m = omega (arith, div-add-mod' y m, ey) in
    let fewer : x / m < y / m = lt_of_mul-lt-mul_right m (omega arith) in
    omega (arith, mul-le-mul_right m (fewer_suc (x / m) (y / m) fewer))
  where
    fewer_suc : (a b : ℕ) → a < b → a + 1 ≤ b
    fewer_suc a b h = omega arith

-- What is left of a multiple when multiples are taken off.
rest_multiple : (m d a b : ℕ) → a % m ≡ 0 → b % m ≡ 0 → (a + d + b) % m ≡ 0 → d % m ≡ 0
rest_multiple m d a b ea eb e =
    sym (add-mul-mod_self_left d m (a / m + b / m)) ∙ ap (λ t. t % m) total ∙ e
  where
    total : d + m * (a / m + b / m) ≡ a + d + b
    total = omega (arith, div-add-mod' a m, div-add-mod' b m)

module _ (k region offset : ℕ) (hk : k ≤ 64) (hr : region < 2 ^ 64) (ho : offset < 2 ^ 64) where
  abbrev distance : ℕ
  distance = wrapping_sub (wrapping_sub 0 offset) region

  alignment_delta_lem : alignment_delta region (2 ^ k) offset ≡ distance % 2 ^ k
  unfolding alignment_delta
  alignment_delta_lem = bit_and_ones k distance

  delta-IsAligned : IsAligned (region + distance % 2 ^ k) (2 ^ k) offset
  delta-IsAligned =
      sym (add-mul-mod_self_left (region + distance % 2 ^ k + offset) (2 ^ k) (distance / 2 ^ k))
      ∙ ap (λ t. t % 2 ^ k) rejoin
      ∙ multiple_of k 64 (distance + region + offset) hk (omega (arith, hr, ho))
    where
      rejoin :
          region + distance % 2 ^ k + offset + 2 ^ k * (distance / 2 ^ k)
          ≡ distance + region + offset
      rejoin = omega (arith, div-add-mod' distance (2 ^ k))

  delta-below : distance % 2 ^ k < 2 ^ k
  delta-below = mod-lt distance (one-le-pow k 2 (omega arith))

-- The constants of a VM, and an alignment that it may ask for.
pub record IsAllowed (vm : VmBinding) (j k region offset : ℕ) : Type 0 where
  pub smallest : vm.min_alignment ≡ 2 ^ j
  pub largest : 2 ^ k ≤ vm.max_alignment
  pub word : k ≤ 64
  pub region_word : region < 2 ^ 64
  pub offset_word : offset < 2 ^ 64
  pub region_multiple : region % 2 ^ j ≡ 0
  pub offset_multiple : offset % 2 ^ j ≡ 0

below_power : (j k : ℕ) → 2 ^ k ≤ 2 ^ j → k ≤ j
below_power j k h = elim (dec_lt j k) [
  | yes lt ↦ absurd (
      omega (
        arith,
        h,
        pow-le-pow_right (two_pos 0) (next j k lt),
        pow-suc 2 j,
        one-le-pow j 2 (two_pos 0),
      ))
  | no ge ↦ omega arith
]
  where
    two_pos : (n : ℕ) → 0 < 2
    two_pos n = omega arith

    next : (a b : ℕ) → a < b → suc a ≤ b
    next a b h = omega arith

smaller_power : (j k : ℕ) → 2 ^ j < 2 ^ k → j ≤ k
smaller_power j k h = elim (dec_lt k j) [
  | yes lt ↦ absurd (omega (arith, h, pow-le-pow_right two_pos (le_of k j lt)))
  | no ge ↦ omega arith
]
  where
    two_pos : 0 < 2
    two_pos = omega arith

    le_of : (a b : ℕ) → a < b → a ≤ b
    le_of a b h = omega arith

module _ (vm : VmBinding) (j k region offset size : ℕ) (h : IsAllowed vm j k region offset) where
  abbrev result : ℕ
  result = align_allocation_no_fill vm region (2 ^ k) offset

  abbrev IsPlaced : Type 0
  IsPlaced =
      (region ≤ result)
      × IsAligned result (2 ^ k) offset
      × (result + size ≤ region + get_maximum_aligned_size vm size (2 ^ k))

  abbrev needs_none : Bool
  needs_none = leb (2 ^ k) vm.min_alignment || leb vm.max_alignment vm.min_alignment

  sum_multiple : (region + offset) % 2 ^ j ≡ 0
  sum_multiple = ap (λ t. t % 2 ^ j) whole ∙ mul-mod_left (region / 2 ^ j + offset / 2 ^ j) (2 ^ j)
    where
      whole : region + offset ≡ (region / 2 ^ j + offset / 2 ^ j) * 2 ^ j
      whole = omega (
        arith,
        div-add-mod' region (2 ^ j),
        div-add-mod' offset (2 ^ j),
        h.region_multiple,
        h.offset_multiple,
      )

  unmoved : needs_none ≡ true → IsPlaced
  unfolding align_allocation_no_fill align_allocation_inner get_maximum_aligned_size
      get_maximum_aligned_size_inner
  unmoved e =
      let small : 2 ^ k ≤ 2 ^ j = ground (arith, h.smallest, h.largest) in
      let aligned = multiple_of k j (region + offset) (below_power j k small) sum_multiple in
      ground (arith, aligned)

  moved : needs_none ≡ false → IsPlaced
  unfolding align_allocation_no_fill align_allocation_inner get_maximum_aligned_size
      get_maximum_aligned_size_inner
  moved e =
      let delta : alignment_delta region (2 ^ k) offset
          ≡ distance k region offset h.word h.region_word h.offset_word % 2 ^ k =
        alignment_delta_lem k region offset h.word h.region_word h.offset_word in
      let aligned = delta-IsAligned k region offset h.word h.region_word h.offset_word in
      let below = delta-below k region offset h.word h.region_word h.offset_word in
      let larger : 2 ^ j < 2 ^ k = ground (arith, h.smallest) in
      let less : j ≤ k = smaller_power j k larger in
      let steps =
        rest_multiple (2 ^ j) (distance k region offset h.word h.region_word h.offset_word % 2 ^ k)
          region offset h.region_multiple h.offset_multiple (multiple_of j k _ less aligned) in
      let fits =
        room (2 ^ j) (distance k region offset h.word h.region_word h.offset_word % 2 ^ k) (2 ^ k)
          steps (multiple_of j k (2 ^ k) less (mod_self (2 ^ k))) below in
      ground (arith, delta, aligned, fits, h.smallest)

pub align_allocation_no_fill-IsPlaced :
    (vm : VmBinding) (j k region offset size : ℕ)
    → IsAllowed vm j k region offset
    → (region ≤ align_allocation_no_fill vm region (2 ^ k) offset)
      × IsAligned (align_allocation_no_fill vm region (2 ^ k) offset) (2 ^ k) offset
      × (align_allocation_no_fill vm region (2 ^ k) offset + size
          ≤ region + get_maximum_aligned_size vm size (2 ^ k))
align_allocation_no_fill-IsPlaced vm j k region offset size h =
    elim (Bool-cases (needs_none vm j k region offset size h)) [
      | inl e ↦ unmoved vm j k region offset size h e
      | inr e ↦ moved vm j k region offset size h e
    ]
