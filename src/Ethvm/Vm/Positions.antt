-- ===== src/Ethvm/Vm/Positions.antt =====
-- Where ethvm/vm.go reads its code: positions by `Int64()`, and `STOP` outside.
use eth_go.Common.{
  ℕ, zero, suc, ◌+◌, ◌-◌, ◌^◌, ◌%◌, ◌≤◌, ◌<◌, ◌≡◌, ◌≢◌, refl, sym, ◌∙◌, arith, List, length, true,
  false, leb, Bool-cases, inl, inr, Result, ok, panic, ◌>>=◌,
}
use eth_go.Common.Int.{ℤ, pos, negsuc, ◌+ℤ◌}
use eth_go.Ethutil.Value.{uint_of, signed64}
use eth_go.Ethvm.Words.{int64_of, uint64_of}
use eth_go.Ethvm.Closure.{gets}
use eth_go.Ethvm.Vm.{Frame, Machine}
use eth_go.Ethvm.Vm.Instruction.{Instruction, stop, instruction_of}
use eth_go.Ethvm.Vm.Offsets.{gets_at}
use eth_go.Ethvm.Vm.Run.{fetch}

-- How many positions are left from `pc` on.
abbrev pub left_from : ℕ → ℤ → ℕ
left_from len (pos x) = len - x
left_from len (negsuc x) = 0

abbrev pub remaining : ℕ → ℤ → ℕ
remaining len pc = left_from len (int64_of pc)

pub left_from_bound : (len : ℕ) (z : ℤ) → left_from len z ≤ len
left_from_bound len (pos x) = omega arith
left_from_bound len (negsuc x) = omega arith

int64_of-pos : (n : ℕ) → int64_of (pos n) ≡ signed64 (n % 2 ^ 64)
unfolding int64_of uint64_of
int64_of-pos n = ground arith

int64_of-negsuc : (n : ℕ) → int64_of (negsuc n) ≡ signed64 ((2 ^ 64 - suc n % 2 ^ 64) % 2 ^ 64)
unfolding int64_of uint64_of
int64_of-negsuc n = ground arith

signed64-pos : (a x : ℕ) → signed64 a ≡ pos x → (a ≡ x) × (x < 2 ^ 63)
signed64-pos a x h = (ground arith, ground arith)

advance : (len x a : ℕ) → a ≡ x + 1 → x < len → left_from len (signed64 a) < len - x
advance len x a e h = ground arith

add_one-pos : (n : ℕ) → pos n +ℤ pos 1 ≡ pos (n + 1)
unfolding ◌+ℤ◌
add_one-pos n = ground arith

add_one-negsuc : (n : ℕ) → negsuc (suc n) +ℤ pos 1 ≡ negsuc n
unfolding ◌+ℤ◌
add_one-negsuc n = ground arith

-- Within the code the next position has one less behind it.
pub remaining_next :
    (len : ℕ) (pc : ℤ) (x : ℕ)
    → int64_of pc ≡ pos x
    → x < len
    → remaining len (pc +ℤ pos 1) < remaining len pc
remaining_next len (pos n) x e h =
    let (same, small) = signed64-pos (n % 2 ^ 64) x (sym (int64_of-pos n) ∙ e) in
    rw (e, add_one-pos n, int64_of-pos (n + 1)) (advance len x _ (omega arith) h)
remaining_next len (negsuc zero) x e h = absurd (ground (arith, int64_of-negsuc 0))
remaining_next len (negsuc (suc n)) x e h =
    let (same, small) =
      signed64-pos ((2 ^ 64 - suc (suc n) % 2 ^ 64) % 2 ^ 64) x
        (sym (int64_of-negsuc (suc n)) ∙ e) in
    rw (e, add_one-negsuc n, int64_of-negsuc n) (advance len x _ (omega arith) h)

-- The op code that is read at a position.
code_at : List ℕ → ℤ → Result Instruction
unfolding gets_at uint_of instruction_of
code_at code z = do v ← gets_at code z 1; op ← uint_of v; ok (instruction_of op)

ok_injective : {A : Type 0} {a b : A} → ok a ≡ ok b → a ≡ b
ok_injective h = cc

code_at_past : (code : List ℕ) (x : ℕ) → leb (length code) x ≡ true → code_at code (pos x) ≡ ok stop
unfolding code_at gets_at gets uint_of instruction_of
code_at_past code x e = rw e refl

code_at_before :
    (code : List ℕ) (x : ℕ) → leb (length code) 1 ≡ true → code_at code (negsuc x) ≡ ok stop
unfolding code_at gets_at gets uint_of instruction_of
code_at_before code x e = rw e refl

panic_before :
    (code : List ℕ) (x : ℕ) (i : Instruction)
    → leb (length code) 1 ≡ false
    → ¬ (code_at code (negsuc x) ≡ ok i)
unfolding code_at gets_at gets uint_of instruction_of
panic_before code x i e h = let p : code_at code (negsuc x) ≡ panic = rw e refl in cc

-- Only `STOP` is read outside the code.
code_at_inside :
    (code : List ℕ) (z : ℤ) (i : Instruction)
    → code_at code z ≡ ok i
    → i ≢ stop
    → (x : ℕ) × (z ≡ pos x) × (x < length code)
code_at_inside code (pos x) i h k = elim (Bool-cases (leb (length code) x)) [
  | inl e ↦ absurd (k (ok_injective (sym h ∙ code_at_past code x e)))
  | inr e ↦ (x, refl, ground arith)
]
code_at_inside code (negsuc x) i h k = elim (Bool-cases (leb (length code) 1)) [
  | inl e ↦ absurd (k (ok_injective (sym h ∙ code_at_before code x e)))
  | inr e ↦ absurd (panic_before code x i e h)
]

pub fetch_inside :
    {T : Type 0} (f : Frame) (m : Machine T) (i : Instruction)
    → fetch f m ≡ ok i
    → i ≢ stop
    → (x : ℕ) × (int64_of m.pc ≡ pos x) × (x < length f.code)
unfolding fetch code_at
fetch_inside f m i h k = code_at_inside f.code (int64_of m.pc) i h k
