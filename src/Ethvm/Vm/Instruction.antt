-- ===== src/Ethvm/Vm/Instruction.antt =====
-- ethvm/types.go: the op codes, by what ethvm/vm.go does with them.
use eth_go.Common.{ℕ, ◌+◌, ◌-◌, List, [], ◌∷◌, leb, ◌==◌, ◌&&◌, if◌then◌else◌}

-- The instructions that take two words and push one.
pub data Binary : Type 0 where
  add mul sub div sdiv modulo smod exp lt gt slt sgt eq bit_and bit_or bit_xor : Binary

-- The instructions that push a word and take none.
pub data Info : Type 0 where
  address origin caller callvalue calldatasize codesize gasprice prevhash coinbase timestamp number
        difficulty gaslimit pc msize gas :
      Info

pub data Instruction : Type 0 where
  stop neg not byte addmod mulmod sha3 balance calldataload calldatacopy codecopy pop mload mstore
        mstore8 sload sstore jump jumpi create call return log suicide :
      Instruction
  binary : Binary → Instruction
  info : Info → Instruction
  push dup swap invalid : ℕ → Instruction

-- The constants but those of `PUSH`, `DUP` and `SWAP`, which stand in a row each.
abbrev pub op_codes : List (ℕ × Instruction)
op_codes =
    (0x00, stop)
    ∷ (0x01, binary add)
    ∷ (0x02, binary mul)
    ∷ (0x03, binary sub)
    ∷ (0x04, binary div)
    ∷ (0x05, binary sdiv)
    ∷ (0x06, binary modulo)
    ∷ (0x07, binary smod)
    ∷ (0x08, binary exp)
    ∷ (0x09, neg)
    ∷ (0x0a, binary lt)
    ∷ (0x0b, binary gt)
    ∷ (0x0c, binary slt)
    ∷ (0x0d, binary sgt)
    ∷ (0x0e, binary eq)
    ∷ (0x0f, not)
    ∷ (0x10, binary bit_and)
    ∷ (0x11, binary bit_or)
    ∷ (0x12, binary bit_xor)
    ∷ (0x13, byte)
    ∷ (0x14, addmod)
    ∷ (0x15, mulmod)
    ∷ (0x20, sha3)
    ∷ (0x30, info address)
    ∷ (0x31, balance)
    ∷ (0x32, info origin)
    ∷ (0x33, info caller)
    ∷ (0x34, info callvalue)
    ∷ (0x35, calldataload)
    ∷ (0x36, info calldatasize)
    ∷ (0x37, calldatacopy)
    ∷ (0x38, info codesize)
    ∷ (0x39, codecopy)
    ∷ (0x3a, info gasprice)
    ∷ (0x40, info prevhash)
    ∷ (0x41, info coinbase)
    ∷ (0x42, info timestamp)
    ∷ (0x43, info number)
    ∷ (0x44, info difficulty)
    ∷ (0x45, info gaslimit)
    ∷ (0x50, pop)
    ∷ (0x53, mload)
    ∷ (0x54, mstore)
    ∷ (0x55, mstore8)
    ∷ (0x56, sload)
    ∷ (0x57, sstore)
    ∷ (0x58, jump)
    ∷ (0x59, jumpi)
    ∷ (0x5a, info pc)
    ∷ (0x5b, info msize)
    ∷ (0x5c, info gas)
    ∷ (0xf0, create)
    ∷ (0xf1, call)
    ∷ (0xf2, return)
    ∷ (0xfe, log)
    ∷ (0xff, suicide)
    ∷ []

unfoldable pub find : List (ℕ × Instruction) → ℕ → Instruction
find [] op = invalid op
find ((code, i) ∷ rest) op = let other = find rest op in if op == code then i else other

-- `PUSH1` is 0x60, `DUP1` is 0x80 and `SWAP1` is 0x90.
unfoldable pub instruction_of : ℕ → Instruction
unfolding find
instruction_of op =
    if leb 0x60 op && leb op 0x7f
    then push (op - 0x60 + 1)
    else if leb 0x80 op && leb op 0x8f
    then dup (op - 0x80 + 1)
    else if leb 0x90 op && leb op 0x9f
    then swap (op - 0x90 + 1)
    else find op_codes op
