-- ===== src/Ethvm/Asm.antt =====
-- ethvm/asm.go: `Disassemble`. A line is an op code, that the source prints by its name, or the bytes
-- that a `PUSH` takes.
pub mod Lines
mod Runs
use eth_go.Common.{
  ℕ, zero, suc, ◌+◌, ◌-◌, List, [], ◌∷◌, ◌++◌, Bool, leb, ltb, ◌&&◌, if◌then◌else◌, Option, none,
  some, length, take, drop,
}

pub data Line : Type 0 where
  op_code : ℕ → Line
  data_bytes : List ℕ → Line

-- How many bytes an op code takes with it.
abbrev pub push_width : ℕ → ℕ
push_width op = if leb 0x60 op && leb op 0x7f then op - 0x60 + 1 else 0

-- `a` is at least 1, so that the bytes are not empty.
abbrev pub lines_at : ℕ → ℕ → List ℕ → List Line
lines_at op zero bs = op_code op ∷ []
lines_at op (suc a) bs = op_code op ∷ data_bytes bs ∷ []

abbrev pub put_lines : List Line → Option (List Line) → Option (List Line)
put_lines front none = none
put_lines front (some asm) = some (front ++ asm)

-- The rest of the script from `pc` on: `none` is the nil that is returned where a `PUSH` lacks bytes.
-- Each round moves `pc`, so that as many rounds as there are bytes are enough.
unfoldable pub disassemble_from : ℕ → List ℕ → Option (List Line)
disassemble_from zero script = some []
disassemble_from (suc fuel) [] = some []
disassemble_from (suc fuel) (op ∷ script) =
    let rest = disassemble_from fuel (drop (push_width op) script) in
    if ltb (length script) (push_width op)
    then none
    else put_lines (lines_at op (push_width op) (take (push_width op) script)) rest

unfoldable pub disassemble : List ℕ → Option (List Line)
unfolding disassemble_from
disassemble script = disassemble_from (length script) script
