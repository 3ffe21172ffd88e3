-- ===== src/Ethtrie/Encoding.antt =====
-- ethtrie/encoding.go: keys as nibbles, and their compact form. A Go string is the list of its bytes.
pub mod RoundTrip
mod Runs
use eth_go.Common.{
  ℕ, zero, suc, ◌+◌, ◌-◌, ◌*◌, ◌/◌, ◌%◌, ◌<◌, List, [], ◌∷◌, ◌++◌, Bool, ltb, leb, ◌==◌,
  if◌then◌else◌, length, get_elem?, take, drop, Result, ok, panic, ◌>>=◌, index, Option, none, some,
  slice as slice_of,
}

-- "0123456789abcdef"
abbrev base : List ℕ
base = 48 ∷ 49 ∷ 50 ∷ 51 ∷ 52 ∷ 53 ∷ 54 ∷ 55 ∷ 56 ∷ 57 ∷ 97 ∷ 98 ∷ 99 ∷ 100 ∷ 101 ∷ 102 ∷ []

-- A hex digit of package encoding/hex.
unfoldable pub hex_digit : ℕ → ℕ
hex_digit n = if ltb n 10 then 48 + n else 87 + n

-- `hex.EncodeToString`
unfoldable pub encode_to_string : List ℕ → List ℕ
unfolding hex_digit
encode_to_string [] = []
encode_to_string (b ∷ bs) = hex_digit (b / 16) ∷ hex_digit (b % 16) ∷ encode_to_string bs

-- `strings.IndexByte`. The hex digits are all found, so the result -1 is not modelled.
unfoldable pub index_byte : List ℕ → ℕ → ℕ
index_byte [] c = 0
index_byte (x ∷ xs) c = let rest = index_byte xs c in if x == c then 0 else rest + 1

unfoldable pub nibbles_of : List ℕ → List ℕ
unfolding index_byte
nibbles_of [] = []
nibbles_of (c ∷ cs) = index_byte base c ∷ nibbles_of cs

unfoldable pub compact_hex_decode : List ℕ → List ℕ
unfolding nibbles_of encode_to_string
compact_hex_decode s = nibbles_of (encode_to_string s) ++ (16 ∷ [])

-- The loop of `CompactEncode` that writes two nibbles as a byte.
unfoldable pub pack_nibbles : List ℕ → Result (List ℕ)
pack_nibbles [] = ok []
pack_nibbles (a ∷ []) = panic
pack_nibbles (a ∷ b ∷ rest) = do bs ← pack_nibbles rest; ok ((16 * a + b) % 256 ∷ bs)

-- `CompactEncode` from the flags on.
unfoldable pub encode_flags : ℕ → List ℕ → Result (List ℕ)
encode_flags terminator body =
    let oddlen = length body % 2 in
    let flags = 2 * terminator + oddlen in
    pack_nibbles (if oddlen == 0 then flags ∷ 0 ∷ body else flags ∷ body)

-- Without a last element the index panics.
unfoldable pub compact_encode : List ℕ → Result (List ℕ)
compact_encode hex_slice = if length hex_slice == 0 then panic else do
  last ← index hex_slice (length hex_slice - 1)
  let terminator : ℕ = if last == 16 then 1 else 0
  body ← slice_of hex_slice 0 (length hex_slice - terminator)
  encode_flags terminator body

-- `CompactDecode` from the flags on.
unfoldable pub decode_flags : List ℕ → Result (List ℕ)
decode_flags b = do
  flags ← index b 0
  let b' = if leb 2 flags then b ++ (16 ∷ []) else b
  slice_of b' (if flags % 2 == 1 then 1 else 2) (length b')

unfoldable pub compact_decode : List ℕ → Result (List ℕ)
compact_decode s = do
  let whole = compact_hex_decode s
  b ← slice_of whole 0 (length whole - 1)
  decode_flags b

-- `base[v]` for the nibbles below 16.
unfoldable pub hex_string : List ℕ → List ℕ
unfolding hex_digit
hex_string [] = []
hex_string (v ∷ vs) = if ltb v 16 then hex_digit v ∷ hex_string vs else hex_string vs

-- `hex.DecodeString` on hex digits, whose only error is an odd length: then it gives no bytes.
unfoldable pub pair_digits : List ℕ → Option (List ℕ)
unfolding index_byte
pair_digits [] = some []
pair_digits (a ∷ []) = none
pair_digits (a ∷ b ∷ rest) = elim (pair_digits rest) [
  | none ↦ none
  | some bs ↦ some ((16 * index_byte base a + index_byte base b) ∷ bs)
]

unfoldable pub decode_compact : List ℕ → List ℕ
unfolding pair_digits hex_string
decode_compact key = elim (pair_digits (hex_string key)) [ none ↦ [] | some bs ↦ bs ]
