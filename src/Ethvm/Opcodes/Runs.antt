-- ===== src/Ethvm/Opcodes/Runs.antt =====
-- The theorems on the names at concrete codes.
use eth_go.Common.{◌≡◌, refl, arith, true, some}
use eth_go.Ethvm.Opcodes.{string_of}
use eth_go.Ethvm.Opcodes.Names.{instruction_of-string_of, is_invalid}
use eth_go.Ethvm.Vm.Instruction.{instruction_of}

-- The assembler makes PUSH17 of PUSH26.
wrong_push : string_of 0x70 ≡ some "PUSH17"
unfolding string_of
wrong_push = refl

instruction_of-string_of_example : is_invalid (instruction_of 0x51) ≡ true
unfolding string_of
instruction_of-string_of_example = instruction_of-string_of 0x51 (omega arith)
