-- ===== src/Ethutil/Rlp.antt =====
-- ethutil/rlp.go: `Encode` and `Decode`. Positions are uint64. An index is bounded by the length of
-- the data, a slice by its capacity, so that it may give bytes that stand behind the data.
pub mod Total
pub mod RoundTrip
pub mod Canonical
mod Runs
use eth_go.Common.{
  ℕ, zero, suc, ◌+◌, ◌-◌, ◌*◌, ◌%◌, ◌^◌, List, [], ◌∷◌, ◌++◌, Bool, false, ltb, leb, if◌then◌else◌,
  length, Result, ok, panic, out_of_fuel, ◌>>=◌, index, slice as slice_of,
}
use eth_go.Common.Int.{ℤ, nat_abs}
use eth_go.Ethutil.Bytes.{u64_mod, to_bytes, read_var_int}
use eth_go.Ethutil.Item.{
  Item, Items, nil_value, num, byte, big, nil_big, bytes, str, slice, value, other, nil, cons,
  to_int64,
}

-- `len(t) == 1 && t[0] <= 0x7f`
unfoldable pub is_direct : List ℕ → Bool
is_direct (b ∷ []) = leb b 0x7f
is_direct _ = false

-- The case `[]byte` of `Encode`.
unfoldable pub encode_bytes : List ℕ → List ℕ
encode_bytes t =
    let b = to_bytes (length t) in
    if is_direct t
    then t
    else if ltb (length t) 56
    then (length t + 0x80) % 256 ∷ t
    else (length b + 0xb7) % 256 ∷ (b ++ t)

unfoldable pub write_slice_header : ℕ → List ℕ
write_slice_header length_of =
    let b = to_bytes length_of in
    if ltb length_of 56 then (length_of + 0xc0) % 256 ∷ [] else (length b + 0xf7) % 256 ∷ b

-- `Bytes` of a `*big.Int` is of its absolute value.
abbrev pub big_bytes : ℤ → List ℕ
big_bytes z = to_bytes (nat_abs z)

unfoldable mutual
  pub encode : Item → List ℕ
  encode nil_value = 0xc0 ∷ []
  encode (num k z) = encode_bytes (big_bytes (to_int64 z))
  encode (byte b) = encode_bytes (to_bytes b)
  encode (big z) = encode_bytes (big_bytes z)
  encode nil_big = 0xc0 ∷ []
  encode (bytes t) = encode_bytes t
  encode (str t) = encode_bytes t
  encode (slice xs) = write_slice_header (length (encode_items xs)) ++ encode_items xs
  encode (value v) = encode v
  encode other = []

  -- The buffer of the case `[]interface{}`.
  pub encode_items : Items → List ℕ
  encode_items nil = []
  encode_items (cons x xs) = encode x ++ encode_items xs

abbrev pub add64 : ℕ → ℕ → ℕ
add64 a b = (a + b) % u64_mod

abbrev pub sub64 : ℕ → ℕ → ℕ
sub64 a b = (a + u64_mod - b) % u64_mod

-- The case `char <= 0xb7` of `Decode`.
unfoldable pub decode_short : List ℕ → ℕ → ℕ → Result (Item × ℕ)
decode_short data' pos b = do
  let start = add64 pos 1
  let end = add64 start b
  s ← slice_of data' start end
  ok (bytes s, end)

-- The bytes of a length behind the first byte, and the position after them.
unfoldable pub decode_length : List ℕ → ℕ → ℕ → Result (ℕ × ℕ)
decode_length data' pos l = do
  let start = add64 pos 1
  let end = add64 start l
  h ← slice_of data' start end
  ok (read_var_int h, end)

-- The case `char <= 0xbf`.
unfoldable pub decode_long : List ℕ → ℕ → ℕ → Result (Item × ℕ)
decode_long data' pos b = do
  (b2, start) ← decode_length data' pos b
  let end = add64 start b2
  s ← slice_of data' start end
  ok (bytes s, end)

abbrev pub Loop : Type 0
Loop = ℕ → ℕ → ℕ → Result (Items × ℕ)

-- The case `char <= 0xf7`; `loop pos i b` is the loop of the case.
unfoldable pub decode_list : Loop → ℕ → ℕ → Result (Item × ℕ)
decode_list loop pos b = do (xs, end) ← loop (add64 pos 1) 0 b; ok (slice xs, end)

-- The case `char <= 0xff`.
unfoldable pub decode_long_list : Loop → List ℕ → ℕ → ℕ → Result (Item × ℕ)
decode_long_list loop data' pos l = do
  (b, start) ← decode_length data' pos l
  (xs, end) ← loop start 0 b
  ok (slice xs, end)

-- The switch of `Decode`. In each case the subtraction does not wrap, by the cases before it.
unfoldable pub decode_char : Loop → List ℕ → ℕ → ℕ → Result (Item × ℕ)
decode_char loop data' pos char =
    if leb char 0x7f
    then ok (byte char, add64 pos 1)
    else if leb char 0xb7
    then decode_short data' pos (char - 0x80)
    else if leb char 0xbf
    then decode_long data' pos (char - 0xb7)
    else if leb char 0xf7
    then decode_list loop pos (char - 0xc0)
    else if leb char 0xff
    then decode_long_list loop data' pos (char - 0xf7)
    else panic

-- `data[pos]`, where `whole` is the data up to its capacity, and `n` its length.
unfoldable pub byte_within : List ℕ → ℕ → ℕ → Result ℕ
byte_within whole n pos = if ltb pos n then index whole pos else panic

unfoldable mutual
  -- `Decode` of the first `n` bytes of `whole`, with fuel for the depth of its calls and the rounds
  -- of its loops.
  pub decode_fuel : ℕ → List ℕ → ℕ → ℕ → Result (Item × ℕ)
  decode_fuel zero whole n pos = out_of_fuel
  decode_fuel (suc fuel) whole n pos = do
    char ← byte_within whole n pos
    decode_char (decode_loop fuel whole n) whole pos char

  -- The `for` loop of both list cases, from position `pos`, at `i` of `b` bytes.
  pub decode_loop : ℕ → List ℕ → ℕ → ℕ → ℕ → ℕ → Result (Items × ℕ)
  decode_loop zero whole n pos i b = out_of_fuel
  decode_loop (suc fuel) whole n pos i b =
      let round = do
        (obj, prev) ← decode_fuel fuel whole n pos
        (rest, end) ← decode_loop fuel whole n prev (add64 i (sub64 prev pos)) b
        ok (cons obj rest, end)
      in if ltb i b then round else ok (nil, pos)

-- `spare` is what stands behind the data within its capacity. Each call and each round reads a byte
-- at least, or is the last: two units of fuel for a byte.
unfoldable pub decode : List ℕ → List ℕ → ℕ → Result (Item × ℕ)
decode spare data' pos =
    decode_fuel (2 * (length data' + length spare) + 2) (data' ++ spare) (length data') pos
