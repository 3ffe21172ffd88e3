-- ===== src/Ethvm/Opcodes.antt =====
-- ethvm/types.go: the names of the op codes, for printing and for assembling.
pub mod Names
mod Runs
use Prim.Native.String.{String}
use text.Mathlib.Text.{◌==◌ as str_eq}
use eth_go.Common.{ℕ, List, [], ◌∷◌, Bool, true, false, ◌==◌, if◌then◌else◌, Option, none, some}

-- `opCodeToString`
abbrev pub op_code_to_string : List (ℕ × String)
op_code_to_string =
    (0x0, "STOP")
    ∷ (0x1, "ADD")
    ∷ (0x2, "MUL")
    ∷ (0x3, "SUB")
    ∷ (0x4, "DIV")
    ∷ (0x5, "SDIV")
    ∷ (0x6, "MOD")
    ∷ (0x7, "SMOD")
    ∷ (0x8, "EXP")
    ∷ (0x9, "NEG")
    ∷ (0xa, "LT")
    ∷ (0xb, "GT")
    ∷ (0xc, "SLT")
    ∷ (0xd, "SGT")
    ∷ (0xe, "EQ")
    ∷ (0xf, "NOT")
    ∷ (0x10, "AND")
    ∷ (0x11, "OR")
    ∷ (0x12, "XOR")
    ∷ (0x13, "BYTE")
    ∷ (0x14, "ADDMOD")
    ∷ (0x15, "MULMOD")
    ∷ (0x20, "SHA3")
    ∷ (0x30, "ADDRESS")
    ∷ (0x31, "BALANCE")
    ∷ (0x32, "ORIGIN")
    ∷ (0x33, "CALLER")
    ∷ (0x34, "CALLVALUE")
    ∷ (0x35, "CALLDATALOAD")
    ∷ (0x36, "CALLDATASIZE")
    ∷ (0x37, "CALLDATACOPY")
    ∷ (0x38, "CODESIZE")
    ∷ (0x39, "CODECOPY")
    ∷ (0x3a, "TXGASPRICE")
    ∷ (0x40, "PREVHASH")
    ∷ (0x41, "COINBASE")
    ∷ (0x42, "TIMESTAMP")
    ∷ (0x43, "NUMBER")
    ∷ (0x44, "DIFFICULTY")
    ∷ (0x45, "GASLIMIT")
    ∷ (0x50, "POP")
    ∷ (0x53, "MLOAD")
    ∷ (0x54, "MSTORE")
    ∷ (0x55, "MSTORE8")
    ∷ (0x56, "SLOAD")
    ∷ (0x57, "SSTORE")
    ∷ (0x58, "JUMP")
    ∷ (0x59, "JUMPI")
    ∷ (0x5a, "PC")
    ∷ (0x5b, "MSIZE")
    ∷ (0x5c, "GAS")
    ∷ (0x60, "PUSH1")
    ∷ (0x61, "PUSH2")
    ∷ (0x62, "PUSH3")
    ∷ (0x63, "PUSH4")
    ∷ (0x64, "PUSH5")
    ∷ (0x65, "PUSH6")
    ∷ (0x66, "PUSH7")
    ∷ (0x67, "PUSH8")
    ∷ (0x68, "PUSH9")
    ∷ (0x69, "PUSH10")
    ∷ (0x6a, "PUSH11")
    ∷ (0x6b, "PUSH12")
    ∷ (0x6c, "PUSH13")
    ∷ (0x6d, "PUSH14")
    ∷ (0x6e, "PUSH15")
    ∷ (0x6f, "PUSH16")
    ∷ (0x70, "PUSH17")
    ∷ (0x71, "PUSH18")
    ∷ (0x72, "PUSH19")
    ∷ (0x73, "PUSH20")
    ∷ (0x74, "PUSH21")
    ∷ (0x75, "PUSH22")
    ∷ (0x76, "PUSH23")
    ∷ (0x77, "PUSH24")
    ∷ (0x78, "PUSH25")
    ∷ (0x79, "PUSH26")
    ∷ (0x7a, "PUSH27")
    ∷ (0x7b, "PUSH28")
    ∷ (0x7c, "PUSH29")
    ∷ (0x7d, "PUSH30")
    ∷ (0x7e, "PUSH31")
    ∷ (0x7f, "PUSH32")
    ∷ (0x80, "DUP1")
    ∷ (0x81, "DUP2")
    ∷ (0x82, "DUP3")
    ∷ (0x83, "DUP4")
    ∷ (0x84, "DUP5")
    ∷ (0x85, "DUP6")
    ∷ (0x86, "DUP7")
    ∷ (0x87, "DUP8")
    ∷ (0x88, "DUP9")
    ∷ (0x89, "DUP10")
    ∷ (0x8a, "DUP11")
    ∷ (0x8b, "DUP12")
    ∷ (0x8c, "DUP13")
    ∷ (0x8d, "DUP14")
    ∷ (0x8e, "DUP15")
    ∷ (0x8f, "DUP16")
    ∷ (0x90, "SWAP1")
    ∷ (0x91, "SWAP2")
    ∷ (0x92, "SWAP3")
    ∷ (0x93, "SWAP4")
    ∷ (0x94, "SWAP5")
    ∷ (0x95, "SWAP6")
    ∷ (0x96, "SWAP7")
    ∷ (0x97, "SWAP8")
    ∷ (0x98, "SWAP9")
    ∷ (0x99, "SWAP10")
    ∷ (0x9a, "SWAP11")
    ∷ (0x9b, "SWAP12")
    ∷ (0x9c, "SWAP13")
    ∷ (0x9d, "SWAP14")
    ∷ (0x9e, "SWAP15")
    ∷ (0x9f, "SWAP16")
    ∷ (0xf0, "CREATE")
    ∷ (0xf1, "CALL")
    ∷ (0xf2, "RETURN")
    ∷ (0xfe, "LOG")
    ∷ (0xff, "SUICIDE")
    ∷ []

-- `OpCodes`, for assembling.
abbrev pub assembler_codes : List (String × ℕ)
assembler_codes =
    ("STOP", 0x00)
    ∷ ("ADD", 0x01)
    ∷ ("MUL", 0x02)
    ∷ ("SUB", 0x03)
    ∷ ("DIV", 0x04)
    ∷ ("SDIV", 0x05)
    ∷ ("MOD", 0x06)
    ∷ ("SMOD", 0x07)
    ∷ ("EXP", 0x08)
    ∷ ("NEG", 0x09)
    ∷ ("LT", 0x0a)
    ∷ ("GT", 0x0b)
    ∷ ("EQ", 0x0c)
    ∷ ("NOT", 0x0d)
    ∷ ("AND", 0x10)
    ∷ ("OR", 0x11)
    ∷ ("XOR", 0x12)
    ∷ ("BYTE", 0x13)
    ∷ ("ADDMOD", 0x14)
    ∷ ("MULMOD", 0x15)
    ∷ ("SHA3", 0x20)
    ∷ ("ADDRESS", 0x30)
    ∷ ("BALANCE", 0x31)
    ∷ ("ORIGIN", 0x32)
    ∷ ("CALLER", 0x33)
    ∷ ("CALLVALUE", 0x34)
    ∷ ("CALLDATALOAD", 0x35)
    ∷ ("CALLDATASIZE", 0x36)
    ∷ ("GASPRICE", 0x38)
    ∷ ("PREVHASH", 0x40)
    ∷ ("COINBASE", 0x41)
    ∷ ("TIMESTAMP", 0x42)
    ∷ ("NUMBER", 0x43)
    ∷ ("DIFFICULTY", 0x44)
    ∷ ("GASLIMIT", 0x45)
    ∷ ("POP", 0x51)
    ∷ ("DUP", 0x52)
    ∷ ("SWAP", 0x53)
    ∷ ("MLOAD", 0x54)
    ∷ ("MSTORE", 0x55)
    ∷ ("MSTORE8", 0x56)
    ∷ ("SLOAD", 0x57)
    ∷ ("SSTORE", 0x58)
    ∷ ("JUMP", 0x59)
    ∷ ("JUMPI", 0x5a)
    ∷ ("PC", 0x5b)
    ∷ ("MSIZE", 0x5c)
    ∷ ("PUSH1", 0x60)
    ∷ ("PUSH2", 0x61)
    ∷ ("PUSH3", 0x62)
    ∷ ("PUSH4", 0x63)
    ∷ ("PUSH5", 0x64)
    ∷ ("PUSH6", 0x65)
    ∷ ("PUSH7", 0x66)
    ∷ ("PUSH8", 0x67)
    ∷ ("PUSH9", 0x68)
    ∷ ("PUSH10", 0x69)
    ∷ ("PUSH11", 0x6a)
    ∷ ("PUSH12", 0x6b)
    ∷ ("PUSH13", 0x6c)
    ∷ ("PUSH14", 0x6d)
    ∷ ("PUSH15", 0x6e)
    ∷ ("PUSH16", 0x6f)
    ∷ ("PUSH17", 0x70)
    ∷ ("PUSH18", 0x71)
    ∷ ("PUSH19", 0x72)
    ∷ ("PUSH20", 0x73)
    ∷ ("PUSH21", 0x74)
    ∷ ("PUSH22", 0x75)
    ∷ ("PUSH23", 0x76)
    ∷ ("PUSH24", 0x77)
    ∷ ("PUSH25", 0x78)
    ∷ ("PUSH26", 0x70)
    ∷ ("PUSH27", 0x7a)
    ∷ ("PUSH28", 0x7b)
    ∷ ("PUSH29", 0x7c)
    ∷ ("PUSH30", 0x7d)
    ∷ ("PUSH31", 0x7e)
    ∷ ("PUSH32", 0x7f)
    ∷ ("DUP1", 0x80)
    ∷ ("DUP2", 0x81)
    ∷ ("DUP3", 0x82)
    ∷ ("DUP4", 0x83)
    ∷ ("DUP5", 0x84)
    ∷ ("DUP6", 0x85)
    ∷ ("DUP7", 0x86)
    ∷ ("DUP8", 0x87)
    ∷ ("DUP9", 0x88)
    ∷ ("DUP10", 0x89)
    ∷ ("DUP11", 0x8a)
    ∷ ("DUP12", 0x8b)
    ∷ ("DUP13", 0x8c)
    ∷ ("DUP14", 0x8d)
    ∷ ("DUP15", 0x8e)
    ∷ ("DUP16", 0x8f)
    ∷ ("SWAP1", 0x90)
    ∷ ("SWAP2", 0x91)
    ∷ ("SWAP3", 0x92)
    ∷ ("SWAP4", 0x93)
    ∷ ("SWAP5", 0x94)
    ∷ ("SWAP6", 0x95)
    ∷ ("SWAP7", 0x96)
    ∷ ("SWAP8", 0x97)
    ∷ ("SWAP9", 0x98)
    ∷ ("SWAP10", 0x99)
    ∷ ("SWAP11", 0x9a)
    ∷ ("SWAP12", 0x9b)
    ∷ ("SWAP13", 0x9c)
    ∷ ("SWAP14", 0x9d)
    ∷ ("SWAP15", 0x9e)
    ∷ ("SWAP16", 0x9f)
    ∷ ("CREATE", 0xf0)
    ∷ ("CALL", 0xf1)
    ∷ ("RETURN", 0xf2)
    ∷ ("LOG", 0xfe)
    ∷ ("SUICIDE", 0x7f)
    ∷ []

unfoldable pub name_in : List (ℕ × String) → ℕ → Option String
name_in [] o = none
name_in ((code, str) ∷ rest) o = let other = name_in rest o in if o == code then some str else other

-- `String`; `none` is "Missing opcode".
unfoldable pub string_of : ℕ → Option String
unfolding name_in
string_of o = name_in op_code_to_string o

unfoldable pub has_name : List (String × ℕ) → String → Bool
has_name [] s = false
has_name ((key, code) ∷ rest) s =
    let other = has_name rest s in if str_eq key s then true else other

unfoldable pub is_op_code : String → Bool
unfolding has_name
is_op_code s = has_name assembler_codes s
