-- ===== src/Ethutil/Value/Arith.antt =====
-- The arithmetic of ethutil/value.go: `doOp` and the five methods on it. The operation of math/big
-- sets the receiver's `Val`; its argument is not changed unless the two are one pointer.
use eth_go.Common.{
  ℕ, zero, suc, ◌+◌, ◌*◌, ◌/◌, ◌^◌, ◌≡◌, refl, ap, arith, List, Result, ok, panic, ◌>>=◌, Option,
  none, some,
}
use native.Mathlib.Nat.{pow-suc, pow-zero}
use eth_go.Common.Int.{ℤ, pos, negsuc, sub_ℕ, ◌+ℤ◌, ◌-ℤ◌, ◌*ℤ◌}
use eth_go.Ethutil.Bytes.{from_bytes}
use eth_go.Ethutil.Item.{Item, big, bytes}
use eth_go.Ethutil.Value.{new_value, big_int}

pub data ValOp : Type 0 where
  val_op_add val_op_div val_op_mul val_op_pow val_op_sub : ValOp

-- Euclidean division: the remainder is not negative. A zero divisor panics.
unfoldable pub div_ℤ : ℤ → ℤ → Result ℤ
div_ℤ a (pos zero) = panic
div_ℤ (pos a) (pos (suc b)) = ok (pos (a / suc b))
div_ℤ (pos a) (negsuc b) = ok (sub_ℕ 0 (a / suc b))
div_ℤ (negsuc a) (pos (suc b)) = ok (negsuc (a / suc b))
div_ℤ (negsuc a) (negsuc b) = ok (pos (a / suc b + 1))

unfoldable pub pow_ℤ : ℤ → ℕ → ℤ
pow_ℤ a zero = pos 1
pow_ℤ a (suc n) = pow_ℤ a n *ℤ a

-- `Exp` with modulus 0; an exponent that is not positive gives 1.
unfoldable pub exp_ℤ : ℤ → ℤ → ℤ
exp_ℤ a (pos n) = pow_ℤ a n
exp_ℤ a (negsuc n) = pos 1

unfoldable pub apply_op : ValOp → ℤ → ℤ → Result ℤ
apply_op val_op_add a b = ok (a +ℤ b)
apply_op val_op_div a b = div_ℤ a b
apply_op val_op_mul a b = ok (a *ℤ b)
apply_op val_op_pow a b = ok (exp_ℤ a b)
apply_op val_op_sub a b = ok (a -ℤ b)

abbrev pointer : Option ℤ → Result ℤ
pointer none = panic
pointer (some z) = ok z

unfoldable pub do_op : ValOp → Item → Item → Result Item
do_op op self other_value = do
  l ← big_int self
  r ← big_int (new_value other_value)
  left ← pointer l
  right ← pointer r
  z ← apply_op op left right
  ok (big z)

-- What each operation gives on numbers that are not negative.
abbrev pub op_result : ValOp → ℕ → ℕ → Result ℤ
op_result val_op_add a b = ok (pos (a + b))
op_result val_op_div a zero = panic
op_result val_op_div a (suc b) = ok (pos (a / suc b))
op_result val_op_mul a b = ok (pos (a * b))
op_result val_op_pow a b = ok (pos (a ^ b))
op_result val_op_sub a b = ok (sub_ℕ a b)

*ℤ_pos : (a b : ℕ) → pos a *ℤ pos b ≡ pos (a * b)
unfolding ◌*ℤ◌
*ℤ_pos a b = ground arith

pow_ℤ_pos : (a n : ℕ) → pow_ℤ (pos a) n ≡ pos (a ^ n)
unfolding pow_ℤ
pow_ℤ_pos a zero = rw pow-zero
pow_ℤ_pos a (suc n) = rw (pow_ℤ_pos a n, pow-suc) (*ℤ_pos (a ^ n) a)

apply_op_pos : (op : ValOp) (a b : ℕ) → apply_op op (pos a) (pos b) ≡ op_result op a b
unfolding apply_op div_ℤ ◌+ℤ◌ ◌-ℤ◌
apply_op_pos val_op_add a b = ground arith
apply_op_pos val_op_div a zero = refl
apply_op_pos val_op_div a (suc b) = refl
apply_op_pos val_op_mul a b = ap ok (*ℤ_pos a b)
apply_op_pos val_op_pow a b = unfold exp_ℤ in ap ok (pow_ℤ_pos a b)
apply_op_pos val_op_sub a b = ground arith

-- On the bytes of two numbers, as a decoder returns them, each method computes with the numbers;
-- the difference may be negative, and a division by zero panics.
pub do_op_lem :
    (op : ValOp) (s t : List ℕ)
    → do_op op (bytes s) (bytes t) ≡ (do z ← op_result op (from_bytes s) (from_bytes t); ok (big z))
unfolding do_op big_int new_value
do_op_lem op s t = rw apply_op_pos
