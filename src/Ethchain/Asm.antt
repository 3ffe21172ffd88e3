-- ===== src/Ethchain/Asm.antt =====
-- ethchain/asm.go: `Disassemble`, whose lines have their place. The table of widths is that of
-- Ethvm.Asm, as the PUSH codes are the same.
pub mod Lines
use eth_go.Common.{
  ℕ, zero, suc, ◌+◌, List, [], ◌∷◌, ◌++◌, map, ltb, if◌then◌else◌, length, take, drop, ◌≡◌, refl,
  sym, ap, ◌∙◌, append_assoc, take-append-drop, Bool, true, false, Bool-cases, inl, inr,
}
use eth_go.Ethvm.Asm.{Line, op_code, data_bytes, push_width}
use eth_go.Ethvm.Asm.Lines.{all_bytes}

-- The lines of an op code at `pc`.
abbrev pub placed : ℕ → ℕ → ℕ → List ℕ → List (ℕ × Line)
placed pc op zero bs = (pc, op_code op) ∷ []
placed pc op (suc a) bs = (pc, op_code op) ∷ (pc + 1, data_bytes bs) ∷ []

-- The rest of a script from `pc` on. Where a `PUSH` lacks bytes the lines so far are returned, its
-- own with them. Each round moves `pc`, so that as many rounds as there are bytes are enough.
unfoldable pub disassemble_from : ℕ → ℕ → List ℕ → List (ℕ × Line)
disassemble_from zero pc script = []
disassemble_from (suc fuel) pc [] = []
disassemble_from (suc fuel) pc (op ∷ script) =
    let w = push_width op in
    let rest = disassemble_from fuel (pc + 1 + w) (drop w script) in
    if ltb (length script) w then (pc, op_code op) ∷ [] else placed pc op w (take w script) ++ rest

unfoldable pub disassemble : List ℕ → List (ℕ × Line)
unfolding disassemble_from
disassemble script = disassemble_from (length script) 0 script
