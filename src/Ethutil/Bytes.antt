-- ===== src/Ethutil/Bytes.antt =====
-- ethutil/bytes.go and ethutil/big.go: byte strings and numbers. A byte slice is a list of numbers
-- below 256. A nonnegative `*big.Int` is a number.
pub mod Numbers
pub mod Pads
mod Runs
use eth_go.Common.{
  ℕ, zero, suc, ◌+◌, ◌-◌, ◌*◌, ◌/◌, ◌%◌, ◌^◌, ◌<◌, List, [], ◌∷◌, ◌++◌, ltb, leb, ◌==◌,
  if◌then◌else◌, length, take, drop, replicate,
}

abbrev pub IsByte : ℕ → Type 0
IsByte b = b < 256

abbrev pub u64_mod : ℕ
u64_mod = 2 ^ 64

-- The bytes of `n`, pushed in front of `out`. Each round divides by 256, so `n` rounds are enough.
unfoldable pub bytes_loop : ℕ → ℕ → List ℕ → List ℕ
bytes_loop zero n out = out
bytes_loop (suc fuel) n out =
    let rest = bytes_loop fuel (n / 256) (n % 256 ∷ out) in if n == 0 then out else rest

-- `n.Bytes()` of math/big: the big endian bytes with no leading zero.
unfoldable pub to_bytes : ℕ → List ℕ
unfolding bytes_loop
to_bytes n = bytes_loop n n []

unfoldable pub from_bytes_loop : ℕ → List ℕ → ℕ
from_bytes_loop acc [] = acc
from_bytes_loop acc (b ∷ bs) = from_bytes_loop (acc * 256 + b) bs

-- `SetBytes` of math/big, and what `binary.Read` in big endian order reads.
unfoldable pub from_bytes : List ℕ → ℕ
unfolding from_bytes_loop
from_bytes bs = from_bytes_loop 0 bs

unfoldable pub right_pad_bytes : List ℕ → ℕ → List ℕ
right_pad_bytes xs l = if ltb l (length xs) then xs else xs ++ replicate (l - length xs) 0

unfoldable pub left_pad_bytes : List ℕ → ℕ → List ℕ
left_pad_bytes xs l = if ltb l (length xs) then xs else replicate (l - length xs) 0 ++ xs

-- `binary.Read` fills a number of `size` bytes, and leaves it 0 on a shorter input.
unfoldable pub binary_read : ℕ → List ℕ → ℕ
binary_read size buff = if ltb (length buff) size then 0 else from_bytes (take size buff)

unfoldable pub read_var_int : List ℕ → ℕ
read_var_int buff =
    let l = length buff in
    if ltb 4 l
    then binary_read 8 (left_pad_bytes buff 8)
    else if ltb 2 l
    then binary_read 4 (left_pad_bytes buff 4)
    else if ltb 1 l
    then binary_read 2 (left_pad_bytes buff 2)
    else binary_read 1 buff

-- The last twenty bytes of a longer slice; a shorter one is padded.
unfoldable pub address : List ℕ → List ℕ
address xs =
    if ltb (length xs) 20
    then left_pad_bytes xs 20
    else if ltb 20 (length xs)
    then drop (length xs - 20) xs
    else xs

-- `base` is in bits. `ret[:len(ret)-k]` keeps zeros, and the bytes are appended.
unfoldable pub big_to_bytes : ℕ → ℕ → List ℕ
big_to_bytes num base =
    let bs = to_bytes num in
    if ltb (base / 8) (length bs) then bs else replicate (base / 8 - length bs) 0 ++ bs

-- `num>>8` on a nonnegative `int`.
binary_length_loop : ℕ → ℕ → ℕ
binary_length_loop zero num = 0
binary_length_loop (suc fuel) num =
    let rest = binary_length_loop fuel (num / 256) in if num == 0 then 0 else 1 + rest

unfoldable pub binary_length : ℕ → ℕ
unfolding binary_length_loop
binary_length num = binary_length_loop num num

unfoldable pub big_max : ℕ → ℕ → ℕ
big_max x y = if leb x y then y else x

unfoldable pub big_min : ℕ → ℕ → ℕ
big_min x y = if leb y x then y else x
