-- ===== src/Ethvm/Asm/Runs.antt =====
-- Disassembled scripts.
use eth_go.Common.{◌≡◌, refl, [], ◌∷◌, none, some}
use eth_go.Ethvm.Asm.Lines.{all_bytes, disassemble-bytes}
use eth_go.Ethvm.Asm.{op_code, data_bytes, disassemble, disassemble_from}

push_add :
    disassemble (0x60 ∷ 7 ∷ 0x01 ∷ []) ≡ some (op_code 0x60 ∷ data_bytes (7 ∷ []) ∷ op_code 1 ∷ [])
unfolding disassemble disassemble_from
push_add = refl

-- The bytes of PUSH2 are missing.
short_push : disassemble (0x01 ∷ 0x61 ∷ 7 ∷ []) ≡ none
unfolding disassemble disassemble_from
short_push = refl

disassemble-bytes_example :
    all_bytes (op_code 0x60 ∷ data_bytes (7 ∷ []) ∷ op_code 1 ∷ []) ≡ 0x60 ∷ 7 ∷ 0x01 ∷ []
disassemble-bytes_example =
    disassemble-bytes (0x60 ∷ 7 ∷ 0x01 ∷ []) (op_code 0x60 ∷ data_bytes (7 ∷ []) ∷ op_code 1 ∷ [])
      push_add
