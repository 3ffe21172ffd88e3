-- ===== src/Ethchain/Opcodes/Runs.antt =====
-- The theorem on the names at a concrete code.
use eth_go.Common.{◌≡◌, refl, some}
use eth_go.Ethchain.Opcodes.{string_of, code_of}

push : string_of 0x60 ≡ some "PUSH1"
unfolding string_of
push = refl

-- The byte that an assembler finds for POP is no op code.
stale_pop : code_of "POP" ≡ some 0x51
unfolding code_of
stale_pop = refl
