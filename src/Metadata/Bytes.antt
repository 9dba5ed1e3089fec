-- ===== src/Metadata/Bytes.antt =====
-- Values of less than a byte: how src/util/metadata/side_metadata/global.rs reads and changes the bits
-- of one value within a byte. A byte is a number below 256.
use mmtk_core.Base.{
  ℕ, ◌-◌, ◌*◌, ◌/◌, ◌%◌, ◌^◌, ◌<◌, ◌≡◌, ◌≢◌, refl, ap, Bool, true, false, ◌&&◌, ◌||◌, ◌==◌, ltb,
  ==_iff, ltb→lt, all_range, all_range_sound, both_true, arith,
}
use Prim.Native.Nat.{bit_and, bit_or}
use mmtk_core.Metadata.Spec.{meta_byte_mask}

abbrev pub shl8 : ℕ → ℕ → ℕ
shl8 x n = x * 2 ^ n % 2 ^ 8

abbrev pub not8 : ℕ → ℕ
not8 x = 2 ^ 8 - 1 - x

abbrev pub shifted_mask : ℕ → ℕ → ℕ
shifted_mask bits_num_log lshift = shl8 (meta_byte_mask bits_num_log) lshift

abbrev pub get_bits : ℕ → ℕ → ℕ → ℕ
get_bits bits_num_log lshift byte = bit_and byte (shifted_mask bits_num_log lshift) / 2 ^ lshift

-- As `store` does it.
abbrev pub put_bits : ℕ → ℕ → ℕ → ℕ → ℕ
put_bits bits_num_log lshift byte value =
    bit_or (bit_and byte (not8 (shifted_mask bits_num_log lshift))) (shl8 value lshift)

-- As the functions that fetch and update do it.
abbrev pub put_masked : ℕ → ℕ → ℕ → ℕ → ℕ
put_masked bits_num_log lshift byte value =
    let mask = shifted_mask bits_num_log lshift in
    bit_or (bit_and byte (not8 mask)) (bit_and (shl8 value lshift) mask)

pub for_all : (k : ℕ) (p : ℕ → Bool) → all_range k 0 p ≡ true → (j : ℕ) → j < k → p j ≡ true
for_all k p h j lt = all_range_sound k 0 p h j (omega arith) (omega arith)

-- A test for each size below a byte and each place of a value of that size.
abbrev pub each_place : (ℕ → ℕ → Bool) → Bool
each_place p = all_range 3 0 (λ b. all_range (8 / 2 ^ b) 0 (p b))

pub at_place :
    (p : ℕ → ℕ → Bool) → each_place p ≡ true → (b i : ℕ) → b < 3 → i < 8 / 2 ^ b → p b i ≡ true
at_place p h b i hb hi = for_all _ (p b) (for_all 3 _ h b hb) i hi

get_below :
    each_place (λ b i. all_range 256 0 (λ x. ltb (get_bits b (i * 2 ^ b) x) (2 ^ (2 ^ b)))) ≡ true
unfolding all_range meta_byte_mask
get_below = refl

put_below :
    each_place (λ b i.
      all_range (2 ^ (2 ^ b)) 0 (λ v. all_range 256 0 (λ x. ltb (put_bits b (i * 2 ^ b) x v) 256)))
    ≡ true
unfolding all_range meta_byte_mask
put_below = refl

get_put :
    each_place (λ b i.
      all_range
        (2 ^ (2 ^ b))
        0
        (λ v. all_range 256 0 (λ x. get_bits b (i * 2 ^ b) (put_bits b (i * 2 ^ b) x v) == v)))
    ≡ true
unfolding all_range meta_byte_mask
get_put = refl

get_put_other :
    each_place (λ b i. all_range (8 / 2 ^ b) 0 (λ j.
      i == j
      || all_range (2 ^ (2 ^ b)) 0 (λ v.
        all_range 256 0
          (λ x. get_bits b (j * 2 ^ b) (put_bits b (i * 2 ^ b) x v) == get_bits b (j * 2 ^ b) x))))
    ≡ true
unfolding all_range meta_byte_mask
get_put_other = refl

masked_put :
    each_place (λ b i. all_range 256 0 (λ v.
      bit_and (shl8 v (i * 2 ^ b)) (shifted_mask b (i * 2 ^ b))
      == shl8 (v % 2 ^ (2 ^ b)) (i * 2 ^ b)))
    ≡ true
unfolding all_range meta_byte_mask
masked_put = refl

masked_and :
    each_place (λ b i. all_range (2 ^ (2 ^ b)) 0 (λ v. all_range 256 0 (λ x.
      bit_and x (bit_or (shl8 v (i * 2 ^ b)) (not8 (shifted_mask b (i * 2 ^ b))))
      == put_masked b (i * 2 ^ b) x (bit_and (get_bits b (i * 2 ^ b) x) v))))
    ≡ true
unfolding all_range meta_byte_mask
masked_and = refl

masked_or :
    each_place (λ b i. all_range (2 ^ (2 ^ b)) 0 (λ v. all_range 256 0 (λ x.
      bit_or x (bit_and (shl8 v (i * 2 ^ b)) (shifted_mask b (i * 2 ^ b)))
      == put_masked b (i * 2 ^ b) x (bit_or (get_bits b (i * 2 ^ b) x) v))))
    ≡ true
unfolding all_range meta_byte_mask
masked_or = refl

put_get :
    each_place
      (λ b i. all_range 256 0 (λ x. put_bits b (i * 2 ^ b) x (get_bits b (i * 2 ^ b) x) == x))
    ≡ true
unfolding all_range meta_byte_mask
put_get = refl

bits_below :
    all_range 3 0 (λ b. all_range (2 ^ (2 ^ b)) 0 (λ x.
      all_range
        (2 ^ (2 ^ b))
        0
        (λ v. ltb (bit_and x v) (2 ^ (2 ^ b)) && ltb (bit_or x v) (2 ^ (2 ^ b)))))
    ≡ true
unfolding all_range
bits_below = refl

pub bitwise_below :
    (b x v : ℕ)
    → b < 3
    → x < 2 ^ (2 ^ b)
    → v < 2 ^ (2 ^ b)
    → (bit_and x v < 2 ^ (2 ^ b)) × (bit_or x v < 2 ^ (2 ^ b))
bitwise_below b x v h hx hv =
    let both = both_true _ _ (for_all _ _ (for_all _ _ (for_all 3 _ bits_below b h) x hx) v hv) in
    (ltb→lt _ _ both.0, ltb→lt _ _ both.1)

-- The facts, for a value of `2 ^ b` bits at the place `i` of a byte `x`.
module _ (b i : ℕ) (small : b < 3) (within : i < 8 / 2 ^ b) where
  pub get_bits-below : (x : ℕ) → x < 256 → get_bits b (i * 2 ^ b) x < 2 ^ (2 ^ b)
  get_bits-below x hx = ltb→lt _ _ (for_all 256 _ (at_place _ get_below b i small within) x hx)

  pub put_bits-below : (x v : ℕ) → x < 256 → v < 2 ^ (2 ^ b) → put_bits b (i * 2 ^ b) x v < 256
  put_bits-below x v hx hv =
      ltb→lt _ _ (for_all 256 _ (for_all _ _ (at_place _ put_below b i small within) v hv) x hx)

  pub get_bits-put_bits :
      (x v : ℕ)
      → x < 256
      → v < 2 ^ (2 ^ b)
      → get_bits b (i * 2 ^ b) (put_bits b (i * 2 ^ b) x v) ≡ v
  get_bits-put_bits x v hx hv =
      (==_iff _ _).0 (for_all 256 _ (for_all _ _ (at_place _ get_put b i small within) v hv) x hx)

  pub put_bits-get_bits :
      (x : ℕ) → x < 256 → put_bits b (i * 2 ^ b) x (get_bits b (i * 2 ^ b) x) ≡ x
  put_bits-get_bits x hx = (==_iff _ _).0 (for_all 256 _ (at_place _ put_get b i small within) x hx)

  pub put_masked_lem :
      (x v : ℕ)
      → v < 256
      → put_masked b (i * 2 ^ b) x v ≡ put_bits b (i * 2 ^ b) x (v % 2 ^ (2 ^ b))
  put_masked_lem x v hv =
      ap (bit_or (bit_and x (not8 (shifted_mask b (i * 2 ^ b)))))
        ((==_iff _ _).0 (for_all 256 _ (at_place _ masked_put b i small within) v hv))

  pub and_masked :
      (x v : ℕ)
      → x < 256
      → v < 2 ^ (2 ^ b)
      → bit_and x (bit_or (shl8 v (i * 2 ^ b)) (not8 (shifted_mask b (i * 2 ^ b))))
        ≡ put_masked b (i * 2 ^ b) x (bit_and (get_bits b (i * 2 ^ b) x) v)
  and_masked x v hx hv =
      (==_iff _ _).0
        (for_all 256 _ (for_all _ _ (at_place _ masked_and b i small within) v hv) x hx)

  pub or_masked :
      (x v : ℕ)
      → x < 256
      → v < 2 ^ (2 ^ b)
      → bit_or x (bit_and (shl8 v (i * 2 ^ b)) (shifted_mask b (i * 2 ^ b)))
        ≡ put_masked b (i * 2 ^ b) x (bit_or (get_bits b (i * 2 ^ b) x) v)
  or_masked x v hx hv =
      (==_iff _ _).0 (for_all 256 _ (for_all _ _ (at_place _ masked_or b i small within) v hv) x hx)

  pub get_bits-put_bits_ne :
      (j x v : ℕ)
      → j < 8 / 2 ^ b
      → i ≢ j
      → x < 256
      → v < 2 ^ (2 ^ b)
      → get_bits b (j * 2 ^ b) (put_bits b (i * 2 ^ b) x v) ≡ get_bits b (j * 2 ^ b) x
  get_bits-put_bits_ne j x v hj n hx hv = (==_iff _ _).0 (
      for_all 256 _
        (for_all _ _
          (right_true (ne_test n) (for_all _ _ (at_place _ get_put_other b i small within) j hj)) v
          hv)
        x hx)
    where
      right_true : {p q : Bool} → p ≡ false → (p || q) ≡ true → q ≡ true
      right_true e h = ground arith

      ne_test : i ≢ j → (i == j) ≡ false
      ne_test n = ground arith
