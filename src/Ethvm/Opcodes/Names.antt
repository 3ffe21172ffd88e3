-- ===== src/Ethvm/Opcodes/Names.antt =====
-- The two tables of names against each other, and against the instructions that the machine runs.
use Prim.Native.String.{String}
use text.Mathlib.Text.{◌==◌ as str_eq}
use text.Mathlib.TextEquality.{eq_iff}
use eth_go.Common.{
  ℕ, zero, suc, ◌<◌, ◌≡◌, refl, ap, arith, List, [], ◌∷◌, Bool, true, false, not as negated,
  if◌then◌else◌, Option, none, some, get_elem?, holds_upto, table_entry, ◌⊎◌, inl, inr, Bool-cases,
}
use eth_go.Ethvm.Opcodes.{string_of, name_in, assembler_codes}
use eth_go.Ethvm.Vm.Instruction.{Instruction, instruction_of, find, invalid}

-- The names under which an assembler finds another code than the one that prints as the name.
abbrev pub stale : List String
stale =
    "EQ" ∷ "NOT" ∷ "GASPRICE" ∷ "POP" ∷ "DUP" ∷ "SWAP" ∷ "MLOAD" ∷ "MSTORE" ∷ "MSTORE8" ∷ "SLOAD"
    ∷ "SSTORE" ∷ "JUMP" ∷ "JUMPI" ∷ "PC" ∷ "MSIZE" ∷ "PUSH26" ∷ "SUICIDE" ∷ []

abbrev pub is_stale : List String → String → Bool
is_stale [] s = false
is_stale (t ∷ ts) s = let other = is_stale ts s in if str_eq t s then true else other

abbrev prints_as : Option String → String → Bool
prints_as none s = false
prints_as (some t) s = str_eq t s

abbrev entry_agrees : String × ℕ → Bool
entry_agrees (s, code) = if is_stale stale s then true else prints_as (string_of code) s

all_of : {A : Type 0} → (A → Bool) → List A → Bool
all_of p [] = true
all_of p (x ∷ xs) = let rest = all_of p xs in if p x then rest else false

all_of-get_elem? :
    {A : Type 0} (p : A → Bool) (xs : List A) (i : ℕ) (x : A)
    → all_of p xs ≡ true
    → get_elem? xs i ≡ some x
    → p x ≡ true
unfolding all_of
all_of-get_elem? p [] i x h e = absurd (cc)
all_of-get_elem? p (y ∷ xs) zero x h e = ground arith
all_of-get_elem? p (y ∷ xs) (suc i) x h e = all_of-get_elem? p xs i x (ground arith) e

tables_agree : all_of entry_agrees assembler_codes ≡ true
unfolding all_of string_of name_in
tables_agree = refl

prints_as-eq : (o : Option String) (s : String) → prints_as o s ≡ true → o ≡ some s
prints_as-eq none s h = absurd (cc)
prints_as-eq (some t) s h = ap some ((eq_iff t s).0 h)

second : (b c : Bool) → (if b then true else c) ≡ true → b ≡ false → c ≡ true
second true c h k = absurd (cc)
second false c h k = h

pub string_of-assembler_codes :
    (i : ℕ) (s : String) (code : ℕ)
    → get_elem? assembler_codes i ≡ some (s, code)
    → (is_stale stale s ≡ true) ⊎ (string_of code ≡ some s)
string_of-assembler_codes i s code e =
    let agrees = all_of-get_elem? entry_agrees assembler_codes i (s, code) tables_agree e in
    elim (Bool-cases (is_stale stale s)) [
      | inl k ↦ inl k
      | inr k ↦ inr (prints_as-eq (string_of code) s (second _ _ agrees k))
    ]

abbrev pub is_invalid : Instruction → Bool
is_invalid (invalid op) = true
is_invalid _ = false

abbrev pub has_string : Option String → Bool
has_string none = false
has_string (some s) = true

abbrev named_or_invalid : ℕ → Bool
named_or_invalid op =
    if has_string (string_of op)
    then negated (is_invalid (instruction_of op))
    else is_invalid (instruction_of op)

table : holds_upto named_or_invalid 256 ≡ true
unfolding holds_upto string_of name_in instruction_of find
table = refl

-- Of the 256 op codes exactly those that String has a name for are instructions of the machine;
-- the others are invalid.
pub instruction_of-string_of :
    (op : ℕ) → op < 256 → is_invalid (instruction_of op) ≡ negated (has_string (string_of op))
instruction_of-string_of op h = from_table _ _ (table_entry named_or_invalid op 256 h table)
  where
    from_table : (b c : Bool) → (if b then negated c else c) ≡ true → c ≡ negated b
    from_table true true h = absurd (cc)
    from_table true false h = refl
    from_table false c h = h
