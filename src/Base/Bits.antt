-- ===== src/Base/Bits.antt =====
-- Powers of two: `&` with a mask of low ones is a remainder, and a power is a product of powers.
use Prim.Native.Nat.{
  ℕ, zero, suc, ◌+◌, ◌-◌, ◌*◌, ◌/◌, ◌%◌, ◌^◌, ◌≤◌, ◌<◌, min, bit_and, bit_and-bitwise, digits,
}
use mathlib.Core.Path.{◌≡◌, refl, sym, ap, ◌∙◌}
use native.Mathlib.Nat.{pow-suc, one-le-pow, div-add-mod', mod-lt}
use native.Mathlib.Omega.{arith}

abbrev conj : ℕ → ℕ → ℕ → ℕ
conj = digits (λ b. zero) min

-- A number has no more digits than its value.
enough : (a n m b : ℕ) → a ≤ n → a ≤ m → conj n a b ≡ conj m a b
enough zero zero zero b p q = refl
enough zero zero (suc m) b p q = refl
enough zero (suc n) zero b p q = refl
enough zero (suc n) (suc m) b p q = refl
enough (suc a) zero m b p q = absurd (omega arith)
enough (suc a) (suc n) zero b p q = absurd (omega arith)
enough (suc a) (suc n) (suc m) b p q =
    ap (λ t. t * 2 + min (suc a % 2) (b % 2))
      (enough (suc a / 2) n m (b / 2) (omega arith) (omega arith))

conj_none : (n a : ℕ) → conj n a 0 ≡ 0
conj_none zero a = refl
conj_none (suc n) zero = refl
conj_none (suc n) (suc a) = omega (arith, conj_none n (suc a / 2))

lowest : (a b : ℕ) → bit_and a b ≡ bit_and (a / 2) (b / 2) * 2 + min (a % 2) (b % 2)
lowest zero b = omega (arith, bit_and-bitwise 0 b, bit_and-bitwise 0 (b / 2))
lowest (suc a) b = omega (
  arith,
  bit_and-bitwise (suc a) b,
  bit_and-bitwise (suc a / 2) (b / 2),
  enough (suc a / 2) a (suc a / 2) (b / 2) (omega arith) (omega arith),
)

-- The low bits of a number given in two parts.
low_part : (k high low : ℕ) → low < 2 ^ k → bit_and (high * 2 ^ k + low) (2 ^ k - 1) ≡ low
low_part zero high low h = omega (
  arith,
  bit_and-bitwise (high * 2 ^ 0 + low) 0,
  conj_none (high * 2 ^ 0 + low) (high * 2 ^ 0 + low),
)
low_part (suc k) high low h =
    let whole : ℕ = high * 2 ^ suc k + low in
    let twice : high * 2 ^ suc k ≡ high * 2 ^ k * 2 =
      omega (arith, ap (λ t. high * t) (pow-suc 2 k)) in
    let half : whole / 2 ≡ high * 2 ^ k + low / 2 = omega arith in
    let ones : (2 ^ suc k - 1) / 2 ≡ 2 ^ k - 1 = omega (arith, pow-suc 2 k, one-le-pow k 2) in
    let rest : bit_and (whole / 2) ((2 ^ suc k - 1) / 2) ≡ low / 2 =
      rw (half, ones) (low_part k high (low / 2) (omega (arith, pow-suc 2 k))) in
    omega (arith, lowest whole (2 ^ suc k - 1), rest, pow-suc 2 k, one-le-pow k 2)

pub bit_and_ones : (k a : ℕ) → bit_and a (2 ^ k - 1) ≡ a % 2 ^ k
bit_and_ones k a =
    ap (λ t. bit_and t (2 ^ k - 1)) (sym (div-add-mod' a (2 ^ k)))
    ∙ low_part k (a / 2 ^ k) (a % 2 ^ k) (mod-lt a (one-le-pow k 2 (omega arith)))

pub two_pow_add : (m n : ℕ) → 2 ^ m * 2 ^ n ≡ 2 ^ (m + n)
two_pow_add zero n = omega (arith, ap (λ (k : ℕ). 2 ^ k) zero_add)
  where
    zero_add : 0 + n ≡ n
    zero_add = omega arith
two_pow_add (suc m) n = omega (
  arith,
  ap (λ (t : ℕ). t * 2 ^ n) (pow-suc 2 m),
  pow-suc 2 (m + n),
  ap (λ (k : ℕ). 2 ^ k) suc_add,
  two_pow_add m n,
  swap_factors (2 ^ m) (2 ^ n),
)
  where
    swap_factors : (a b : ℕ) → a * 2 * b ≡ a * b * 2
    swap_factors a b = omega arith

    suc_add : suc m + n ≡ suc (m + n)
    suc_add = omega arith

pub pow_split : (b l : ℕ) → b ≤ l → 2 ^ b * 2 ^ (l - b) ≡ 2 ^ l
pow_split b l h = two_pow_add b (l - b) ∙ ap (λ (k : ℕ). 2 ^ k) (omega arith)
