-- ===== src/Ethutil/Value.antt =====
-- ethutil/value.go. A `*Value` is modelled by its `Val`; a method that sets `Val` returns the new
-- one. A method that calls a nil `*big.Int` panics.
pub mod Reads
pub mod Arith
pub mod Iterator
mod Runs
use eth_go.Common.{
  ℕ, zero, suc, ◌+◌, ◌-◌, ◌*◌, ◌/◌, ◌%◌, ◌^◌, List, [], ◌∷◌, ◌++◌, Bool, true, false, ◌&&◌, ◌||◌,
  ltb, leb, ◌==◌, if◌then◌else◌, length, Result, ok, panic, out_of_fuel, ◌>>=◌, Option, none, some,
}
use eth_go.Common.Int.{ℤ, pos, negsuc, nat_abs}
use eth_go.Ethutil.Bytes.{to_bytes, from_bytes}
use eth_go.Ethutil.Item.{
  Item, Items, IntKind, int, int8, int16, int32, int64, uint, uint16, uint32, uint64, nil_value,
  num, byte, big, nil_big, bytes, str, slice, value, other, nil, cons, to_int64, length_items,
}
use eth_go.Ethutil.Rlp.{encode, decode}

-- `NewValue`: the `Val` of a `*Value`, or the value itself.
unfoldable pub new_value : Item → Item
new_value (value v) = v
new_value v = v

-- `Copy`: a nil `*big.Int` panics.
unfoldable pub copy_value : Item → Result Item
unfolding new_value
copy_value nil_big = panic
copy_value v = ok (new_value v)

unfoldable pub is_nil : Item → Bool
is_nil nil_value = true
is_nil _ = false

-- The low 64 bits, as the conversions `uint64(x)` give them.
abbrev pub to_uint64 : ℤ → ℕ
to_uint64 (pos n) = n % 2 ^ 64
to_uint64 (negsuc n) = (2 ^ 64 - suc n % 2 ^ 64) % 2 ^ 64

-- The integer types that `Uint` and that `Int` name.
abbrev pub uint_kind : IntKind → Bool
uint_kind int = true
uint_kind uint = true
uint_kind uint16 = true
uint_kind uint32 = true
uint_kind uint64 = true
uint_kind _ = false

abbrev pub int_kind : IntKind → Bool
int_kind int = true
int_kind int8 = true
int_kind int16 = true
int_kind int32 = true
int_kind int64 = true
int_kind _ = false

unfoldable pub uint_of : Item → Result ℕ
uint_of (byte b) = ok b
uint_of (num k z) = ok (if uint_kind k then to_uint64 z else 0)
uint_of (bytes t) = ok (from_bytes t % 2 ^ 64)
uint_of (big z) = ok (nat_abs z % 2 ^ 64)
uint_of nil_big = panic
uint_of _ = ok 0

-- The two's complement reading of 64 bits.
abbrev pub signed64 : ℕ → ℤ
signed64 n = if ltb n (2 ^ 63) then pos n else negsuc (2 ^ 64 - n - 1)

unfoldable pub int_of : Item → Result ℤ
int_of (num k z) = ok (if int_kind k then z else pos 0)
int_of (bytes t) = ok (signed64 (from_bytes t % 2 ^ 64))
int_of (big (pos n)) = ok (signed64 (n % 2 ^ 64))
int_of (big (negsuc n)) = ok (signed64 ((2 ^ 64 - suc n % 2 ^ 64) % 2 ^ 64))
int_of nil_big = panic
int_of _ = ok (pos 0)

unfoldable pub byte_of : Item → ℕ
byte_of (byte b) = b
byte_of _ = 0

-- `none` is a nil `*big.Int`.
unfoldable pub big_int : Item → Result (Option ℤ)
unfolding uint_of
big_int (bytes t) = ok (some (pos (from_bytes t)))
big_int (big z) = ok (some z)
big_int nil_big = ok none
big_int v = do n ← uint_of v; ok (some (signed64 n))

-- `string(b)` of a byte is the UTF-8 form of the code point `b`.
unfoldable pub string_of_byte : ℕ → List ℕ
string_of_byte b = if ltb b 0x80 then b ∷ [] else (0xc0 + b / 64) ∷ (0x80 + b % 64) ∷ []

unfoldable pub str_of : Item → List ℕ
str_of (bytes t) = t
str_of (str t) = t
str_of (byte b) = string_of_byte b
str_of _ = []

unfoldable pub bytes_of : Item → Result (List ℕ)
bytes_of (bytes t) = ok t
bytes_of (byte b) = ok (b ∷ [])
bytes_of (str t) = ok t
bytes_of (big z) = ok (to_bytes (nat_abs z))
bytes_of nil_big = panic
bytes_of _ = ok []

unfoldable pub slice_of : Item → Items
slice_of (slice xs) = xs
slice_of _ = nil

unfoldable pub len : Item → Result ℕ
unfolding bytes_of
len (slice xs) = ok (length_items xs)
len v = do t ← bytes_of v; ok (length t)

unfoldable pub is_list : Item → Bool
is_list (slice xs) = true
is_list _ = false

-- `reflect.TypeOf(nil)` has no kind.
unfoldable pub is_slice : Item → Result Bool
is_slice nil_value = panic
is_slice (bytes t) = ok true
is_slice (slice xs) = ok true
is_slice _ = ok false

unfoldable pub is_str : Item → Result Bool
is_str nil_value = panic
is_str (str t) = ok true
is_str _ = ok false

-- `||` and `&&` do not run their second argument where the first decides.
unfoldable pub is_empty : Item → Result Bool
unfolding is_nil is_slice is_str len
is_empty v =
    if is_nil v
    then ok true
    else do a ← is_slice v; b ← is_str v; if a || b then (do n ← len v; ok (n == 0)) else ok false

-- The item at an index within bounds; `nil` behind them.
unfoldable pub item_at : Items → ℕ → Item
item_at nil i = nil_value
item_at (cons x xs) zero = x
item_at (cons x xs) (suc i) = item_at xs i

unfoldable pub get : Item → ℤ → Item
unfolding new_value item_at
get (slice xs) (pos i) = new_value (item_at xs i)
get (slice xs) (negsuc i) = nil_value
get _ i = nil_value

unfoldable pub append_items : Items → Items → Items
append_items nil ys = ys
append_items (cons x xs) ys = cons x (append_items xs ys)

-- `Append` sets `Val` to the longer slice.
unfoldable pub append : Item → Item → Item
unfolding append_items slice_of
append v x = slice (append_items (slice_of v) (cons x nil))

abbrev pub empty_value : Item
empty_value = slice nil

-- The loop of `NewSliceValue` over a `[]interface{}`; other values give the empty list.
unfoldable pub append_all : Item → Items → Item
unfolding append
append_all list nil = list
append_all list (cons x xs) = append_all (append list x) xs

unfoldable pub new_slice_value : Item → Item
unfolding append_all
new_slice_value (slice xs) = append_all empty_value xs
new_slice_value _ = empty_value

unfoldable pub encode_value : Item → List ℕ
encode_value v = encode v

-- `Decode` reads the bytes of the value, from position 0; `spare` is what stands behind them within
-- their capacity.
unfoldable pub decode_value : List ℕ → Item → Result Item
decode_value spare v = do t ← bytes_of v; (x, end) ← decode spare t 0; ok x

unfoldable pub new_value_from_slice : List ℕ → List ℕ → Result Item
unfolding decode_value bytes_of
new_value_from_slice spare [] = ok nil_value
new_value_from_slice spare (b ∷ bs) = decode_value spare (bytes (b ∷ bs))

-- Of bytes that nothing stands behind.
abbrev pub new_value_from_bytes : List ℕ → Result Item
new_value_from_bytes data' = new_value_from_slice [] data'
