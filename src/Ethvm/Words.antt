-- ===== src/Ethvm/Words.antt =====
-- The operations of math/big on the words of ethvm/vm.go, of either sign, and `ensure256`.
pub mod Bits
pub mod Range
use Prim.Native.Nat.{bit_and, bit_or, bit_xor}
use eth_go.Common.{
  ℕ, zero, suc, ◌+◌, ◌-◌, ◌*◌, ◌/◌, ◌%◌, ◌^◌, ltb, leb, ◌==◌, Bool, if◌then◌else◌, Result, ok,
  panic,
}
use eth_go.Common.Int.{ℤ, pos, negsuc, nat_abs, neg_part, sub_ℕ, ltb_ℤ, ◌+ℤ◌, ◌-ℤ◌, ◌*ℤ◌}
use eth_go.Ethutil.Value.{signed64}

-- `Pow256`
abbrev pub pow256 : ℕ
pow256 = 2 ^ 256

-- `BigTrue` and `BigFalse` of ethutil.
abbrev pub big_of : Bool → ℤ
big_of b = if b then pos 1 else pos 0

abbrev pub is_negative : ℤ → Bool
is_negative z = ltb_ℤ z (pos 0)

-- The low 64 bits of the absolute value.
unfoldable pub uint64_of : ℤ → ℕ
uint64_of z = nat_abs z % 2 ^ 64

-- `Int64()`: those bits as a signed number, negated if the integer is negative, wrapped.
unfoldable pub int64_of : ℤ → ℤ
unfolding uint64_of
int64_of z =
    if is_negative z then signed64 ((2 ^ 64 - uint64_of z) % 2 ^ 64) else signed64 (uint64_of z)

-- How often a uint64 is halved before it fits the 53 bits of a float64.
unfoldable pub float64_shift : ℕ → ℕ → ℕ
float64_shift zero n = 0
float64_shift (suc bits) n =
    let rest = float64_shift bits (n / 2) in if ltb n (2 ^ 53) then 0 else suc rest

-- `q * 2 ^ k + r` to the nearest multiple of `2 ^ k`, and between two of them to the even one.
abbrev pub round_half_even : ℕ → ℕ → ℕ → ℕ
round_half_even q r k =
    let up = if q % 2 == 1 then leb (2 ^ k) (2 * r) else ltb (2 ^ k) (2 * r) in
    (if up then q + 1 else q) * 2 ^ k

-- `float64(n)` of a uint64, which is a whole number.
unfoldable pub float64_of : ℕ → ℕ
unfolding float64_shift
float64_of n = let k = float64_shift 11 n in round_half_even (n / 2 ^ k) (n % 2 ^ k) k

-- `uint64(x)` of a whole number up to 2 ^ 64. That bound itself is out of range, where Go leaves the
-- result open, and its compiler for amd64 gives 0.
unfoldable pub float64_to_uint64 : ℕ → ℕ
float64_to_uint64 x = x % 2 ^ 64

-- The sum of two int64.
unfoldable pub add_int64 : ℤ → ℤ → ℤ
add_int64 a b = elim (a +ℤ b) [
  | pos n ↦ signed64 (n % 2 ^ 64)
  | negsuc n ↦ signed64 (2 ^ 64 - 1 - n % 2 ^ 64)
]

-- `Div`: the quotient whose remainder is not negative. The divisor is not 0.
unfoldable pub div_ℤ : ℤ → ℤ → ℤ
div_ℤ (pos a) (pos b) = pos (a / b)
div_ℤ (pos a) (negsuc b) = sub_ℕ 0 (a / suc b)
div_ℤ (negsuc a) (pos b) = negsuc (a / b)
div_ℤ (negsuc a) (negsuc b) = pos (a / suc b + 1)

-- `Mod`, with a remainder that is not negative.
unfoldable pub euclid_mod : ℤ → ℕ → ℤ
euclid_mod (pos a) n = pos (a % n)
euclid_mod (negsuc a) n = pos (n - 1 - a % n)

-- A division by 0 panics.
unfoldable pub mod_ℤ : ℤ → ℤ → Result ℤ
unfolding euclid_mod
mod_ℤ y x = if nat_abs x == 0 then panic else ok (euclid_mod y (nat_abs x))

-- In two's complement -(n + 1) has the digits that `n` has not.
unfoldable pub and_ℤ : ℤ → ℤ → ℤ
and_ℤ (pos a) (pos b) = pos (bit_and a b)
and_ℤ (pos a) (negsuc b) = pos (a - bit_and a b)
and_ℤ (negsuc a) (pos b) = pos (b - bit_and a b)
and_ℤ (negsuc a) (negsuc b) = negsuc (bit_or a b)

unfoldable pub or_ℤ : ℤ → ℤ → ℤ
or_ℤ (pos a) (pos b) = pos (bit_or a b)
or_ℤ (pos a) (negsuc b) = negsuc (b - bit_and b a)
or_ℤ (negsuc a) (pos b) = negsuc (a - bit_and a b)
or_ℤ (negsuc a) (negsuc b) = negsuc (bit_and a b)

unfoldable pub xor_ℤ : ℤ → ℤ → ℤ
xor_ℤ (pos a) (pos b) = pos (bit_xor a b)
xor_ℤ (pos a) (negsuc b) = negsuc (bit_xor a b)
xor_ℤ (negsuc a) (pos b) = negsuc (bit_xor a b)
xor_ℤ (negsuc a) (negsuc b) = pos (bit_xor a b)

-- The mask has the 256 low digits; a negative number would become 0.
unfoldable pub ensure256 : ℤ → ℤ
unfolding and_ℤ
ensure256 x = let x' = and_ℤ x (pos (2 ^ 256 - 1)) in if is_negative x' then pos 0 else x'

-- `Exp` modulo `Pow256`: 1 for an exponent that is not positive. The result has the sign of the
-- power, as `ensure256` gets it.
unfoldable pub exp_ℤ : ℤ → ℤ → ℤ
exp_ℤ y (negsuc n) = pos 1
exp_ℤ (pos y) (pos n) = pos (y ^ n % 2 ^ 256)
exp_ℤ (negsuc y) (pos n) = let r = suc y ^ n % 2 ^ 256 in if n % 2 == 1 then sub_ℕ 0 r else pos r
