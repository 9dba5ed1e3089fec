-- ===== src/Metadata/Bulk/Load.antt =====
-- Loads after `bzero_metadata` and `bset_metadata`, src/util/metadata/side_metadata/global.rs.
use mmtk_core.Base.{
  ℕ, zero, suc, ◌+◌, ◌-◌, ◌*◌, ◌/◌, ◌%◌, ◌^◌, ◌≤◌, ◌<◌, ◌≡◌, ◌≢◌, refl, ap, ◌∙◌, ◌==◌, ==_iff, ◌&&◌,
  true, false, if◌then◌else◌, arith, dec_lt, ℕ_discrete, all_range, both_true,
}
use native.Mathlib.Nat.{div-mul-le_self, le-div_iff_mul-le, mul-le-mul_right, pow-suc}
use mmtk_core.Metadata.Spec.{
  SideMetadataSpec, IsRegular, region, meta_byte_mask, address_to_meta_address, meta_byte_lshift,
}
use mmtk_core.Metadata.Spec.Translate.{one_le_two_pow}
use mmtk_core.Metadata.Bytes.{get_bits, each_place, at_place}
use mmtk_core.Metadata.Access.{Memory, load, values, load_value}
use mmtk_core.Metadata.Access.Words.{IsBytes}
use mmtk_core.Metadata.Access.Lanes.{
  place_of, start_of, load_place, load_whole, places, value_range,
}
use mmtk_core.Metadata.Bulk.{
  BitsUpdate, bzero_metadata, bset_metadata, zero_meta_bits, set_meta_bits, bulk_update_metadata,
}
use mmtk_core.Metadata.Bulk.Bits.{bit, within, zero-bit_of, ones-bit_of}
use mmtk_core.Metadata.Bulk.Fill.{IsFilled, meta_bits-IsFilled, meta_bits-IsBytes}
use mmtk_core.Metadata.Bulk.Agree.{position, load_agree, start-position, lshift-below}

-- Memory in which all bits are zero, or all are one.
abbrev zeros : Memory
zeros a = 0

abbrev ones : Memory
ones a = 255

blank_table :
    each_place
      (λ b i. (get_bits b (i * 2 ^ b) 0 == 0) && (get_bits b (i * 2 ^ b) 255 == 2 ^ (2 ^ b) - 1))
    ≡ true
unfolding all_range meta_byte_mask
blank_table = refl

load_value-zeros : (n a : ℕ) → load_value n zeros a ≡ 0
unfolding load_value
load_value-zeros zero a = refl
load_value-zeros (suc n) a = omega (arith, load_value-zeros n (a + 1))

load_value-ones : (n a : ℕ) → load_value n ones a + 1 ≡ 256 ^ n
unfolding load_value
load_value-ones zero a = omega arith
load_value-ones (suc n) a = omega (arith, load_value-ones n (a + 1), pow-suc 256 n)

blank :
    (spec : SideMetadataSpec) (e : ℕ)
    → IsRegular spec
    → e < 2 ^ 64
    → (load spec zeros e ≡ 0) × (load spec ones e ≡ values spec - 1)
blank spec e h he = elim (dec_lt spec.log_num_of_bits 3) [
  | yes small ↦
      let both =
        both_true _ _ (at_place _ blank_table _ (place_of o b l e) small (places b _ small)) in
      (
        load_place o b l zeros e small ∙ (==_iff _ _).0 both.0,
        load_place o b l ones e small ∙ (==_iff _ _).0 both.1,
      )
  | no large ↦
      let wide : 3 ≤ b = omega arith in
      (
        load_whole o b l zeros e wide h.at_most_region he ∙ load_value-zeros _ _,
        load_whole o b l ones e wide h.at_most_region he
            ∙ omega (
              arith,
              load_value-ones (2 ^ (b - 3)) (start_of o b l e),
              value_range b wide h.at_most_word,
            ),
      )
]
  where
    o : ℕ
    o = spec.offset

    b : ℕ
    b = spec.log_num_of_bits

    l : ℕ
    l = spec.log_bytes_in_region

-- Filling the values of some regions: a load gives what it gives in the filling, or as before.
load_filled :
    (spec : SideMetadataSpec) (c r₀ r₁ e : ℕ) (filling mem after : Memory)
    → IsRegular spec
    → IsBytes filling
    → IsBytes mem
    → IsBytes after
    → e < 2 ^ 64
    → ((p : ℕ) → bit filling p ≡ c)
    → IsFilled c
        (position spec.offset spec.log_num_of_bits r₀)
        (position spec.offset spec.log_num_of_bits r₁)
        mem
        after
    → load spec after e
      ≡ (if within r₀ r₁ (region spec e) then load spec filling e else load spec mem e)
load_filled spec c r₀ r₁ e filling mem after h ok₀ ok₁ ok₂ he same filled =
    elim (dec_lt (region spec e) r₀) [
      | yes lo ↦ ground (
        arith,
        load_agree spec after mem e h ok₂ ok₁ he (λ p p₀ p₁.
            ground (arith, filled p, mul-le-mul_right (2 ^ spec.log_num_of_bits) (next lo))),
      )
      | no lo ↦ elim (dec_lt (region spec e) r₁) [
        | yes hi ↦ ground (
          arith,
          load_agree spec after filling e h ok₂ ok₀ he (λ p p₀ p₁. ground (
            arith,
            filled p,
            same p,
            mul-le-mul_right (2 ^ spec.log_num_of_bits) (next hi),
            mul-le-mul_right (2 ^ spec.log_num_of_bits) (not_below lo),
          )),
        )
        | no hi ↦ ground (
          arith,
          load_agree spec after mem e h ok₂ ok₁ he (λ p p₀ p₁.
              ground (arith, filled p, mul-le-mul_right (2 ^ spec.log_num_of_bits) (not_below hi))),
        )
      ]
    ]
  where
    next : {x y : ℕ} → x < y → x + 1 ≤ y
    next h = omega arith

    not_below : {x y : ℕ} → ¬ (x < y) → y ≤ x
    not_below h = omega arith

region_mono : (l x y : ℕ) → x ≤ y → x / 2 ^ l ≤ y / 2 ^ l
region_mono l x y h =
    (le-div_iff_mul-le (one_le_two_pow l)).1 (omega (arith, div-mul-le_self x (2 ^ l)))

moved :
    (c lo lo' hi hi' : ℕ) (before after : Memory)
    → lo ≡ lo'
    → hi ≡ hi'
    → IsFilled c lo hi before after
    → IsFilled c lo' hi' before after
moved c lo lo' hi hi' before after e e' h = rw (← e, ← e') h

module _ (spec : SideMetadataSpec) (start size : ℕ) (mem : Memory) (h : IsRegular spec)
    (ok : IsBytes mem) (hd : start + size < 2 ^ 64) where
  abbrev applied : BitsUpdate → Memory
  applied update_meta_bits =
      update_meta_bits (address_to_meta_address spec start) (meta_byte_lshift spec start)
        (address_to_meta_address spec (start + size)) (meta_byte_lshift spec (start + size)) mem

  abbrev from : ℕ
  from = position spec.offset spec.log_num_of_bits (region spec start)

  abbrev upto : ℕ
  upto = position spec.offset spec.log_num_of_bits (region spec (start + size))

  starts : address_to_meta_address spec start * 8 + meta_byte_lshift spec start ≡ from
  starts = start-position spec start h (omega arith)

  ends :
      address_to_meta_address spec (start + size) * 8 + meta_byte_lshift spec (start + size) ≡ upto
  ends = start-position spec (start + size) h hd

  ordered :
      address_to_meta_address spec start * 8 + meta_byte_lshift spec start
      ≤ address_to_meta_address spec (start + size) * 8 + meta_byte_lshift spec (start + size)
  ordered = omega (
    arith,
    starts,
    ends,
    mul-le-mul_right (2 ^ spec.log_num_of_bits)
        (region_mono spec.log_bytes_in_region start (start + size) (omega arith)),
  )

  filled :
      (size ≢ 0)
      → (IsFilled 0 from upto mem (bzero_metadata spec start size mem)
          × IsBytes (bzero_metadata spec start size mem))
        × (IsFilled 1 from upto mem (bset_metadata spec start size mem)
            × IsBytes (bset_metadata spec start size mem))
  unfolding bzero_metadata bset_metadata bulk_update_metadata
  filled n =
      let fills =
        meta_bits-IsFilled _ _ _ _ mem (lshift-below spec start) (lshift-below spec (start + size))
          ordered ok in
      let keeps =
        meta_bits-IsBytes _ _ _ _ mem (lshift-below spec start) (lshift-below spec (start + size))
          ordered ok in
      let zeroed = moved 0 _ _ _ _ mem (applied zero_meta_bits) starts ends fills.0 in
      let set = moved 1 _ _ _ _ mem (applied set_meta_bits) starts ends fills.1 in
      rw (not_zero n) ((zeroed, keeps.0), (set, keeps.1))
    where
      not_zero : (size ≢ 0) → (size == 0) ≡ false
      not_zero n = ground arith

  empty :
      size ≡ 0
      → (region spec (start + size) ≡ region spec start)
        × (bzero_metadata spec start size mem ≡ mem)
        × (bset_metadata spec start size mem ≡ mem)
  unfolding bzero_metadata bset_metadata bulk_update_metadata
  empty e = (ap (region spec) (omega arith), ground arith, ground arith)

-- For a regular spec, bytes in memory, and a range of data and a data address of the machine: after
-- `bzero_metadata` of the range a load gives zero at each region from that of the start up to that of
-- the end, and at any other what it gave before; after `bset_metadata` it gives the largest value at
-- these regions, and at any other what it gave before.
pub load-bulk_metadata :
    (spec : SideMetadataSpec) (start size e : ℕ) (mem : Memory)
    → IsRegular spec
    → IsBytes mem
    → start + size < 2 ^ 64
    → e < 2 ^ 64
    → (load spec (bzero_metadata spec start size mem) e ≡ (
        if within (region spec start) (region spec (start + size)) (region spec e)
        then 0
        else load spec mem e))
      × (load spec (bset_metadata spec start size mem) e ≡ (
          if within (region spec start) (region spec (start + size)) (region spec e)
          then values spec - 1
          else load spec mem e))
load-bulk_metadata spec start size e mem h ok hd he = elim (ℕ_discrete size 0) [
  | yes p ↦
      let none = empty spec start size mem h ok hd p in
      rw (none.0, none.1, none.2) (ground arith, ground arith)
  | no n ↦
      let done = filled spec start size mem h ok hd n in
      let values = blank spec e h he in
      (
        rw (← values.0) (
            load_filled spec 0 (region spec start) (region spec (start + size)) e zeros mem
              (bzero_metadata spec start size mem) h (λ a. omega arith) ok done.0.1 he
              (λ p. zero-bit_of (p % 8)) done.0.0),
        rw (← values.1) (
            load_filled spec 1 (region spec start) (region spec (start + size)) e ones mem
              (bset_metadata spec start size mem) h (λ a. omega arith) ok done.1.1 he
              (λ p. ones-bit_of (p % 8) (omega arith)) done.1.0),
      )
]
