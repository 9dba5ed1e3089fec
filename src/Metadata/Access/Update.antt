-- ===== src/Metadata/Access/Update.antt =====
-- The atomic updates of src/util/metadata/side_metadata/global.rs as a load and a store.
use mmtk_core.Base.{
  ℕ, zero, suc, ◌+◌, ◌-◌, ◌*◌, ◌/◌, ◌%◌, ◌^◌, ◌<◌, ◌≡◌, ◌∙◌, ap, arith, update, dec_lt,
}
use mathlib.Core.Path.{subst}
use native.Mathlib.Nat.{mod-eq_of_lt}
use Prim.Native.Nat.{bit_and, bit_or}
use mmtk_core.Metadata.Spec.{
  SideMetadataSpec, address_to_meta_address, address_to_contiguous_meta_address,
}
use mmtk_core.Metadata.Spec.Translate.{spec_of, meta_byte_lshift_lem}
use mmtk_core.Metadata.Bytes.{
  get_bits, put_masked_lem, get_bits-below, and_masked, or_masked, bitwise_below,
}
use mmtk_core.Metadata.Access.{
  Memory, load, store, values, fetch_ops_on_bits, fetch_value, fetch_add_atomic, fetch_sub_atomic,
  fetch_and_atomic, fetch_or_atomic,
}
use mmtk_core.Metadata.Access.Words.{IsBytes}
use mmtk_core.Metadata.Access.Lanes.{byte_of, place_of, load_place, store_place, places}

-- What a fetch leaves: the old value and a store of the new one.
abbrev pub IsFetch : SideMetadataSpec → Memory → ℕ → ℕ → ℕ × Memory → Type 0
IsFetch spec mem d new found = found ≡ (load spec mem d, store spec mem d new)

module _ (o b l : ℕ) (mem : Memory) (bytes : IsBytes mem) (small : b < 3) (d : ℕ) where
  pub load_below : load (spec_of o b l) mem d < 2 ^ (2 ^ b)
  load_below =
      rw (load_place o b l mem d small) (get_bits-below b _ small (places b _ small) _ (bytes _))

  pub fetch_ops_on_bits-IsFetch :
      (f : ℕ → ℕ)
      → f (load (spec_of o b l) mem d) < 256
      → IsFetch
          (spec_of o b l)
          mem
          d
          (f (load (spec_of o b l) mem d) % 2 ^ (2 ^ b))
          (fetch_ops_on_bits (spec_of o b l) mem d (byte_of o b l d) f)
  unfolding fetch_ops_on_bits
  fetch_ops_on_bits-IsFetch f h =
      rw
        (
          store_place o b l mem d (f (load (spec_of o b l) mem d) % 2 ^ (2 ^ b)) small,
          meta_byte_lshift_lem o b l d small,
          load_place o b l mem d small,
        )
        (ap (λ (t : ℕ). (get_bits b lane (mem byte), update mem byte t))
          (put_masked_lem b (place_of o b l d) small (places b _ small) (mem byte)
            (f (get_bits b lane (mem byte)))
            (subst (λ (t : ℕ). f t < 256) (load_place o b l mem d small) h)))
    where
      byte : ℕ
      byte = byte_of o b l d

      lane : ℕ
      lane = place_of o b l d * 2 ^ b

  -- What `fetch_and_atomic` and `fetch_or_atomic` do to the byte is what `fetch_ops_on_bits` does.
  and_ops :
      (v : ℕ)
      → v < 2 ^ (2 ^ b)
      → fetch_and_atomic (spec_of o b l) mem d v
        ≡ fetch_ops_on_bits (spec_of o b l) mem d (byte_of o b l d) (λ x. bit_and x v)
  unfolding fetch_and_atomic fetch_ops_on_bits address_to_meta_address
      address_to_contiguous_meta_address
  and_ops v hv = ground (
    arith,
    meta_byte_lshift_lem o b l d small,
    and_masked b _ small (places b (d / 2 ^ l) small) (mem (byte_of o b l d)) v (bytes _) hv,
  )

  or_ops :
      (v : ℕ)
      → v < 2 ^ (2 ^ b)
      → fetch_or_atomic (spec_of o b l) mem d v
        ≡ fetch_ops_on_bits (spec_of o b l) mem d (byte_of o b l d) (λ x. bit_or x v)
  unfolding fetch_or_atomic fetch_ops_on_bits address_to_meta_address
      address_to_contiguous_meta_address
  or_ops v hv = ground (
    arith,
    meta_byte_lshift_lem o b l d small,
    or_masked b _ small (places b (d / 2 ^ l) small) (mem (byte_of o b l d)) v (bytes _) hv,
  )

  add_ops :
      (v : ℕ)
      → fetch_add_atomic (spec_of o b l) mem d v
        ≡ fetch_ops_on_bits (spec_of o b l) mem d (byte_of o b l d) (λ x. (x + v) % 2 ^ 8)
  unfolding fetch_add_atomic address_to_meta_address address_to_contiguous_meta_address
  add_ops v = ground arith

  sub_ops :
      (v : ℕ)
      → fetch_sub_atomic (spec_of o b l) mem d v
        ≡ fetch_ops_on_bits (spec_of o b l) mem d (byte_of o b l d) (λ x. (x + 2 ^ 8 - v) % 2 ^ 8)
  unfolding fetch_sub_atomic address_to_meta_address address_to_contiguous_meta_address
  sub_ops v = ground arith

add_mod : (b x : ℕ) → b < 3 → x % 2 ^ 8 % 2 ^ (2 ^ b) ≡ x % 2 ^ (2 ^ b)
add_mod zero x h = omega arith
add_mod (suc zero) x h = omega arith
add_mod (suc (suc zero)) x h = omega arith
add_mod (suc (suc (suc b))) x h = absurd (omega arith)

sub_mod :
    (b x v : ℕ)
    → b < 3
    → v < 2 ^ (2 ^ b)
    → (x + 2 ^ 8 - v) % 2 ^ 8 % 2 ^ (2 ^ b) ≡ (x + 2 ^ (2 ^ b) - v) % 2 ^ (2 ^ b)
sub_mod zero x v h hv = omega arith
sub_mod (suc zero) x v h hv = omega arith
sub_mod (suc (suc zero)) x v h hv = omega arith
sub_mod (suc (suc (suc b))) x v h hv = absurd (omega arith)

pub values_small : (b x : ℕ) → b < 3 → x < 2 ^ (2 ^ b) → x < 256
values_small zero x h hx = omega arith
values_small (suc zero) x h hx = omega arith
values_small (suc (suc zero)) x h hx = omega arith
values_small (suc (suc (suc b))) x h hx = absurd (omega arith)

-- A fetch of a new value that fits needs no mask.
pub fits :
    (spec : SideMetadataSpec) (mem : Memory) (d x y : ℕ) (found : ℕ × Memory)
    → x ≡ y
    → IsFetch spec mem d x found
    → IsFetch spec mem d y found
fits spec mem d x y found e h = subst (λ (t : ℕ). IsFetch spec mem d t found) e h

-- The four results.
abbrev pub IsFetchedLike : SideMetadataSpec → Memory → ℕ → ℕ → Type 0
IsFetchedLike spec mem d v =
    let old = load spec mem d in
    IsFetch spec mem d ((old + v) % values spec) (fetch_add_atomic spec mem d v)
    × IsFetch spec mem d ((old + values spec - v) % values spec) (fetch_sub_atomic spec mem d v)
    × IsFetch spec mem d (bit_and old v) (fetch_and_atomic spec mem d v)
    × IsFetch spec mem d (bit_or old v) (fetch_or_atomic spec mem d v)

small_fetch :
    (o b l : ℕ) (mem : Memory) (bytes : IsBytes mem) (small : b < 3) (d v : ℕ)
    → v < 2 ^ (2 ^ b)
    → IsFetchedLike (spec_of o b l) mem d v
small_fetch o b l mem bytes small d v hv = (
  add_ops o b l mem bytes small d v
      ∙ fits spec mem d _ _ _ (add_mod b _ small) (ops (λ x. (x + v) % 2 ^ 8) (omega arith)),
  sub_ops o b l mem bytes small d v
      ∙ fits spec mem d _ _ _ (sub_mod b _ v small hv)
          (ops (λ x. (x + 2 ^ 8 - v) % 2 ^ 8) (omega arith)),
  and_ops o b l mem bytes small d v hv
      ∙ fits spec mem d _ _ _ (mod-eq_of_lt both.0)
          (ops (λ x. bit_and x v) (values_small b _ small both.0)),
  or_ops o b l mem bytes small d v hv
      ∙ fits spec mem d _ _ _ (mod-eq_of_lt both.1)
          (ops (λ x. bit_or x v) (values_small b _ small both.1)),
)
  where
    spec : SideMetadataSpec
    spec = spec_of o b l

    old : ℕ
    old = load spec mem d

    both : (bit_and old v < 2 ^ (2 ^ b)) × (bit_or old v < 2 ^ (2 ^ b))
    both = bitwise_below b old v small (load_below o b l mem bytes small d) hv

    ops :
        (f : ℕ → ℕ)
        → f old < 256
        → IsFetch spec mem d
            (f old % 2 ^ (2 ^ b))
            (fetch_ops_on_bits spec mem d (byte_of o b l d) f)
    ops = fetch_ops_on_bits-IsFetch o b l mem bytes small d

-- For bytes in memory and an operand that fits the metadata: each of `fetch_add_atomic`,
-- `fetch_sub_atomic`, `fetch_and_atomic` and `fetch_or_atomic` returns what a load gives, and leaves
-- the memory that a store of the new value leaves. The new value is the sum or the difference of the
-- old value and the operand, wrapped at the size of the metadata, or their bitwise `and` or `or`.
pub fetch_atomic-IsFetchedLike :
    (spec : SideMetadataSpec) (mem : Memory) (d v : ℕ)
    → IsBytes mem
    → v < values spec
    → IsFetchedLike spec mem d v
unfolding fetch_add_atomic fetch_sub_atomic fetch_and_atomic fetch_or_atomic fetch_value load store
fetch_atomic-IsFetchedLike spec mem d v bytes hv = elim (dec_lt spec.log_num_of_bits 3) [
  | yes small ↦
      small_fetch spec.offset spec.log_num_of_bits spec.log_bytes_in_region mem bytes small d v hv
  | no large ↦ ground arith
]
