-- ===== src/Ethvm/Vm/Arithmetic/Laws.antt =====
-- The binary instructions against arithmetic modulo 2 ^ 256.
use Prim.Native.Nat.{bit_and as and_digits, bit_or as or_digits, bit_xor as xor_digits}
use native.Mathlib.Nat.{mod-eq_of_lt, div-le_self, mod-le}
use eth_go.Common.{
  ℕ, ◌+◌, ◌-◌, ◌*◌, ◌/◌, ◌%◌, ◌^◌, ◌<◌, ◌≡◌, refl, ap, ◌∙◌, arith, ltb, ◌==◌, if◌then◌else◌, Option,
  none, some, Result, ok, panic,
}
use eth_go.Common.Int.{ℤ, pos, ◌+ℤ◌, ◌-ℤ◌, ◌*ℤ◌}
use eth_go.Ethvm.Words.{ensure256, div_ℤ, mod_ℤ, euclid_mod, exp_ℤ, and_ℤ, or_ℤ, xor_ℤ, pow256}
use eth_go.Ethvm.Words.Range.{ensure256-pos, ensure256-negsuc}
use eth_go.Ethvm.Vm.Instruction.{
  Binary, add, mul, sub, div, sdiv, modulo, smod, exp, lt, gt, slt, sgt, eq, bit_and, bit_or,
  bit_xor,
}
use eth_go.Ethvm.Vm.Arithmetic.{binary_op, divide, remainder}

-- What an instruction means on words; `none` where there is no result.
abbrev pub word_op : Binary → ℕ → ℕ → Option ℕ
word_op add y x = some ((y + x) % pow256)
word_op sub y x = some ((y + (pow256 - x)) % pow256)
word_op mul y x = some (y * x % pow256)
word_op div y x = some (if x == 0 then 0 else y / x)
word_op sdiv y x = some (if x == 0 then 0 else y / x)
word_op modulo y x = if x == 0 then none else some (y % x)
word_op smod y x = if x == 0 then none else some (y % x)
word_op exp y x = some (y ^ x % pow256)
word_op lt y x = some (if ltb y x then 1 else 0)
word_op gt y x = some (if ltb x y then 1 else 0)
word_op slt y x = some (if ltb y x then 1 else 0)
word_op sgt y x = some (if ltb x y then 1 else 0)
word_op eq y x = some (if y == x then 1 else 0)
word_op bit_and y x = some (and_digits y x)
word_op bit_or y x = some (or_digits y x)
word_op bit_xor y x = some (xor_digits y x)

abbrev pub result_of : Option ℕ → Result ℤ
result_of none = panic
result_of (some n) = ok (pos n)

pos-*ℤ : (a b : ℕ) → pos a *ℤ pos b ≡ pos (a * b)
unfolding ◌*ℤ◌
pos-*ℤ a b = ground arith

pos-+ℤ : (a b : ℕ) → pos a +ℤ pos b ≡ pos (a + b)
unfolding ◌+ℤ◌
pos-+ℤ a b = ground arith

small : (n : ℕ) → n < pow256 → ensure256 (pos n) ≡ pos n
small n h = ensure256-pos n ∙ ap pos (mod-eq_of_lt h)

divide_lem : (y x : ℕ) → y < pow256 → divide (pos y) (pos x) ≡ pos (if x == 0 then 0 else y / x)
unfolding divide div_ℤ
divide_lem y x h = ground (arith, small 0, small (y / x), div-le_self y x)

remainder_lem :
    (y x : ℕ)
    → y < pow256
    → remainder (pos y) (pos x) ≡ result_of (if x == 0 then none else some (y % x))
unfolding remainder mod_ℤ euclid_mod
remainder_lem y x h = ground (arith, small (y % x), mod-le y x)

-- the property
pub binary_op-word_op :
    (op : Binary) (y x : ℕ)
    → y < pow256
    → x < pow256
    → binary_op op (pos y) (pos x) ≡ result_of (word_op op y x)
unfolding binary_op
binary_op-word_op add y x h k =
    ap (λ z. ok (ensure256 z)) (pos-+ℤ y x) ∙ ap ok (ensure256-pos (y + x))
binary_op-word_op sub y x h k =
    unfold ◌-ℤ◌ in ground (arith, ensure256-pos (y - x), ensure256-negsuc (x - y - 1))
binary_op-word_op mul y x h k =
    ap (λ z. ok (ensure256 z)) (pos-*ℤ y x) ∙ ap ok (ensure256-pos (y * x))
binary_op-word_op div y x h k = ap ok (divide_lem y x h)
binary_op-word_op sdiv y x h k = ap ok (divide_lem y x h)
binary_op-word_op modulo y x h k = remainder_lem y x h
binary_op-word_op smod y x h k = remainder_lem y x h
binary_op-word_op exp y x h k = unfold exp_ℤ in ap ok (small (y ^ x % pow256) (omega arith))
binary_op-word_op lt y x h k = ground arith
binary_op-word_op gt y x h k = ground arith
binary_op-word_op slt y x h k = ground arith
binary_op-word_op sgt y x h k = ground arith
binary_op-word_op eq y x h k = ground arith
binary_op-word_op bit_and y x h k = unfold and_ℤ in refl
binary_op-word_op bit_or y x h k = unfold or_ℤ in refl
binary_op-word_op bit_xor y x h k = unfold xor_ℤ in refl
