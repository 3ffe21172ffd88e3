-- ===== src/Ethvm/Words/Bits.antt =====
-- The bit operations on numbers: the digits that a mask keeps, and how large the results are.
use Prim.Native.Nat.{
  bit_and, bit_or, bit_xor, bit_and-bitwise, bit_or-bitwise, bit_xor-bitwise, digits, differ,
}
use eth_go.Common.{
  ℕ, zero, suc, ◌+◌, ◌-◌, ◌*◌, ◌/◌, ◌%◌, ◌^◌, ◌≤◌, ◌<◌, min, max, ◌≡◌, sym, ap, ◌∙◌, arith,
}
use native.Mathlib.Nat.{zero-mod, mod-lt, mod-eq_of_lt, div-add-mod, mul-add-mod_self_left}

pub pow-suc : (k : ℕ) → 2 ^ suc k ≡ 2 ^ k * 2
pow-suc k = omega arith

half_bound : (a p q : ℕ) → q ≡ p * 2 → a < q → a / 2 < p
half_bound a p q e h = omega arith

-- An operation on digits that keeps to digits gives no number longer than both of its arguments.
module _ (z : ℕ → ℕ) (f : ℕ → ℕ → ℕ) (small : (b : ℕ) → z b ≤ b)
    (digit : (x y : ℕ) → x < 2 → y < 2 → f x y < 2) where
  digits_bound : (n k a b : ℕ) → a < 2 ^ k → b < 2 ^ k → digits z f n a b < 2 ^ k
  digits_bound zero k a b p q = omega (arith, small b)
  digits_bound (suc n) k zero b p q = omega (arith, small b)
  digits_bound (suc n) zero (suc a) b p q = absurd (omega arith)
  digits_bound (suc n) (suc k) (suc a) b p q =
      let low = digit (suc a % 2) (b % 2) (omega arith) (omega arith) in
      let high =
        digits_bound n k (suc a / 2) (b / 2) (half_bound (suc a) (2 ^ k) (2 ^ suc k) (pow-suc k) p)
          (half_bound b (2 ^ k) (2 ^ suc k) (pow-suc k) q) in
      omega (arith, pow-suc k)

pub bit_and_bound : (k a b : ℕ) → a < 2 ^ k → b < 2 ^ k → bit_and a b < 2 ^ k
bit_and_bound k a b p q = omega (
  arith,
  bit_and-bitwise a b,
  digits_bound (λ b. 0) min (λ b. omega arith) (λ x y p q. omega arith) a k a b p q,
)

pub bit_or_bound : (k a b : ℕ) → a < 2 ^ k → b < 2 ^ k → bit_or a b < 2 ^ k
bit_or_bound k a b p q = omega (
  arith,
  bit_or-bitwise a b,
  digits_bound (λ b. b) max (λ b. omega arith) (λ x y p q. omega arith) a k a b p q,
)

differ_digit : (x y : ℕ) → x < 2 → y < 2 → differ x y < 2
differ_digit zero y p q = q
differ_digit (suc zero) zero p q = p
differ_digit (suc zero) (suc zero) p q = omega arith
differ_digit (suc zero) (suc (suc y)) p q = absurd (omega arith)
differ_digit (suc (suc x)) y p q = absurd (omega arith)

pub bit_xor_bound : (k a b : ℕ) → a < 2 ^ k → b < 2 ^ k → bit_xor a b < 2 ^ k
bit_xor_bound k a b p q = omega (
  arith,
  bit_xor-bitwise a b,
  digits_bound (λ b. b) differ (λ b. omega arith) differ_digit a k a b p q,
)

-- The last binary digit, in front of the others.
mod_double : (a p : ℕ) → 0 < p → a % (p * 2) ≡ a / 2 % p * 2 + a % 2
mod_double a p h =
    let r : ℕ = a / 2 % p * 2 + a % 2 in
    let parts : a ≡ p * 2 * (a / 2 / p) + r = omega (arith, div-add-mod (a / 2) p) in
    let small : r < p * 2 = omega (arith, mod-lt (a / 2) h) in
    ap (λ n. n % (p * 2)) parts ∙ mul-add-mod_self_left (p * 2) (a / 2 / p) r ∙ mod-eq_of_lt small

pub pow-positive : (k : ℕ) → 0 < 2 ^ k
pow-positive zero = omega arith
pow-positive (suc k) = omega (arith, pow-suc k, pow-positive k)

-- One digit for each round, as long as there are rounds enough for the first number.
mask_digits : (n k a : ℕ) → a ≤ n → digits (λ b. 0) min n a (2 ^ k - 1) ≡ a % 2 ^ k
mask_digits zero k zero h = sym (zero-mod (2 ^ k))
mask_digits zero k (suc a) h = absurd (omega arith)
mask_digits (suc n) k zero h = sym (zero-mod (2 ^ k))
mask_digits (suc n) zero (suc a) h = omega (arith, mask_digits n zero (suc a / 2) (omega arith))
mask_digits (suc n) (suc k) (suc a) h =
    let half : (2 ^ suc k - 1) / 2 ≡ 2 ^ k - 1 = omega (arith, pow-suc k, pow-positive k) in
    let odd : (2 ^ suc k - 1) % 2 ≡ 1 = omega (arith, pow-suc k, pow-positive k) in
    let digit : min (suc a % 2) 1 ≡ suc a % 2 = omega arith in
    rw (half, odd, digit, mask_digits n k (suc a / 2) (omega arith), pow-suc k)
      (sym (mod_double (suc a) (2 ^ k) (pow-positive k)))

-- A mask of `k` ones keeps the number modulo 2 ^ k.
pub bit_and_mask : (k a : ℕ) → bit_and a (2 ^ k - 1) ≡ a % 2 ^ k
bit_and_mask k a = bit_and-bitwise a (2 ^ k - 1) ∙ mask_digits a k a (omega arith)
