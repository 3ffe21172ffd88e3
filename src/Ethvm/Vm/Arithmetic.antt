-- ===== src/Ethvm/Vm/Arithmetic.antt =====
-- ethvm/vm.go: what the cases of the second `switch` compute from the words that they take, in the
-- 0x0 and 0x10 ranges.
pub mod Laws
use Prim.Native.Nat.{digits}
use eth_go.Common.{
  ℕ, ◌+◌, ◌-◌, ◌^◌, List, Bool, true, false, ltb, leb, ◌==◌, ◌&&◌, not as negated, if◌then◌else◌,
  length, Result, ok, panic, ◌>>=◌, index,
}
use eth_go.Common.Int.{ℤ, pos, negsuc, nat_abs, ltb_ℤ, ◌+ℤ◌, ◌-ℤ◌, ◌*ℤ◌}
use eth_go.Ethutil.Bytes.{to_bytes, left_pad_bytes}
use eth_go.Ethvm.Words.{ensure256, div_ℤ, mod_ℤ, exp_ℤ, and_ℤ, or_ℤ, xor_ℤ, pow256, big_of}
use eth_go.Ethvm.Stack.{Stack, require, pop, popn, push as push_word}
use eth_go.Ethvm.Vm.Instruction.{
  Binary, add, mul, sub, div, sdiv, modulo, smod, exp, lt, gt, slt, sgt, eq, bit_and, bit_or,
  bit_xor,
}

-- `DIV` and `SDIV` leave `base` at 0 where the divisor is 0.
unfoldable pub divide : ℤ → ℤ → ℤ
unfolding div_ℤ ensure256
divide y x = ensure256 (if nat_abs x == 0 then pos 0 else div_ℤ y x)

-- `MOD` and `SMOD` do not look whether the divisor is 0.
unfoldable pub remainder : ℤ → ℤ → Result ℤ
unfolding mod_ℤ ensure256
remainder y x = do base ← mod_ℤ y x; ok (ensure256 base)

-- `y` is the top of the stack and `x` the word below it.
unfoldable pub binary_op : Binary → ℤ → ℤ → Result ℤ
unfolding divide remainder
binary_op add y x = ok (ensure256 (y +ℤ x))
binary_op sub y x = ok (ensure256 (y -ℤ x))
binary_op mul y x = ok (ensure256 (y *ℤ x))
binary_op div y x = ok (divide y x)
binary_op sdiv y x = ok (divide y x)
binary_op modulo y x = remainder y x
binary_op smod y x = remainder y x
binary_op exp y x = ok (ensure256 (exp_ℤ y x))
binary_op lt y x = ok (big_of (ltb_ℤ y x))
binary_op gt y x = ok (big_of (ltb_ℤ x y))
binary_op slt y x = ok (big_of (ltb_ℤ y x))
binary_op sgt y x = ok (big_of (ltb_ℤ x y))
binary_op eq y x = ok (big_of (if ltb_ℤ x y then false else negated (ltb_ℤ y x)))
binary_op bit_and y x = ok (and_ℤ y x)
binary_op bit_or y x = ok (or_ℤ y x)
binary_op bit_xor y x = ok (xor_ℤ y x)

unfoldable pub binary_step : Binary → Stack → Result Stack
unfolding binary_op require popn push_word
binary_step op st = do
  _ ← require 2 st
  (x, y, rest) ← popn st
  z ← binary_op op y x
  ok (push_word z rest)

unfoldable pub neg_step : Stack → Result Stack
unfolding require pop push_word
neg_step st = do _ ← require 1 st; (x, rest) ← pop st; ok (push_word (pos pow256 -ℤ x) rest)

unfoldable pub not_step : Stack → Result Stack
unfolding require pop push_word
not_step st = do
  _ ← require 1 st
  (x, rest) ← pop st
  ok (push_word (big_of (if ltb_ℤ (pos 0) x then false else true)) rest)

-- `val.Bytes()` has no leading zeros. A `th` below 0 is an index out of range.
unfoldable pub byte_at : ℤ → ℤ → Result ℤ
unfolding to_bytes left_pad_bytes
byte_at val (pos th) =
    let bs = to_bytes (nat_abs val) in
    if ltb th 32 && ltb th (length bs)
    then (do b ← index (left_pad_bytes bs 32) th; ok (pos b))
    else ok (pos 0)
byte_at val (negsuc th) = panic

unfoldable pub byte_step : Stack → Result Stack
unfolding byte_at require popn push_word
byte_step st = do
  _ ← require 2 st
  (val, th, rest) ← popn st
  b ← byte_at val th
  ok (push_word b rest)

-- The sum or the product, modulo the third word.
unfoldable pub modular_step : (ℤ → ℤ → ℤ) → Stack → Result Stack
unfolding remainder require pop push_word
modular_step op st = do
  _ ← require 3 st
  (x, st1) ← pop st
  (y, st2) ← pop st1
  (z, rest) ← pop st2
  base ← remainder (op x y) z
  ok (push_word base rest)
