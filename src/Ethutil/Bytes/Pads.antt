-- ===== src/Ethutil/Bytes/Pads.antt =====
-- Padding keeps the number that the bytes stand for; what the readers of short big endian numbers
-- and the fixed size writers give.
use eth_go.Common.{
  ℕ, zero, suc, ◌+◌, ◌-◌, ◌*◌, ◌/◌, ◌^◌, ◌≤◌, ◌<◌, ◌≡◌, refl, ◌∙◌, arith, List, [], ◌∷◌, ◌++◌, ltb,
  length, length-append, length-replicate, length-drop, All, All-append, take_all, replicate, max,
  inl, inr, Bool-cases,
}
use eth_go.Ethutil.Bytes.{
  IsByte, from_bytes, to_bytes, left_pad_bytes, binary_read, read_var_int, address, big_to_bytes,
}
use eth_go.Ethutil.Bytes.Numbers.{from_bytes-to_bytes, length-to_bytes}

from_bytes-zeros : (n : ℕ) (xs : List ℕ) → from_bytes (replicate n 0 ++ xs) ≡ from_bytes xs
unfolding from_bytes
from_bytes-zeros zero xs = refl
from_bytes-zeros (suc n) xs = from_bytes-zeros n xs

All-zeros : (n : ℕ) → All IsByte (replicate n 0)
All-zeros zero = tt
All-zeros (suc n) = (omega arith, All-zeros n)

-- Left padding keeps the number, and gives the length asked for, or leaves a longer slice alone.
pub left_pad_bytes_lem :
    (xs : List ℕ) (l : ℕ)
    → (from_bytes (left_pad_bytes xs l) ≡ from_bytes xs)
      × (length (left_pad_bytes xs l) ≡ max l (length xs))
unfolding left_pad_bytes
left_pad_bytes_lem xs l = ground (
  arith,
  from_bytes-zeros (l - length xs) xs,
  length-append (replicate (l - length xs) 0) xs,
  length-replicate {A = ℕ} (l - length xs) 0,
)

pub left_pad_bytes-IsByte : (xs : List ℕ) (l : ℕ) → All IsByte xs → All IsByte (left_pad_bytes xs l)
unfolding left_pad_bytes
left_pad_bytes-IsByte xs l h = elim (Bool-cases (ltb l (length xs))) [
  | inl e ↦ rw e h
  | inr e ↦ rw e (All-append IsByte (replicate (l - length xs) 0) xs (All-zeros (l - length xs)) h)
]

binary_read_whole :
    (size : ℕ) (xs : List ℕ) → length xs ≡ size → binary_read size xs ≡ from_bytes xs
unfolding binary_read
binary_read_whole size xs h = ground (arith, take_all xs size)

binary_read-left_pad_bytes :
    (size : ℕ) (xs : List ℕ)
    → length xs ≤ size
    → binary_read size (left_pad_bytes xs size) ≡ from_bytes xs
binary_read-left_pad_bytes size xs h =
    binary_read_whole size (left_pad_bytes xs size) (omega (arith, left_pad_bytes_lem xs size))
    ∙ (left_pad_bytes_lem xs size).0

-- Up to eight bytes `read_var_int` reads the big endian number, whatever the width it goes by.
pub read_var_int-from_bytes : (xs : List ℕ) → length xs ≤ 8 → read_var_int xs ≡ from_bytes xs
unfolding read_var_int
read_var_int-from_bytes [] h = unfold binary_read from_bytes in refl
read_var_int-from_bytes (x ∷ xs) h = ground (
  arith,
  binary_read_whole 1 (x ∷ xs),
  binary_read-left_pad_bytes 2 (x ∷ xs),
  binary_read-left_pad_bytes 4 (x ∷ xs),
  binary_read-left_pad_bytes 8 (x ∷ xs),
)

-- An address has twenty bytes: the last ones, or all of them behind zeros.
pub length-address : (xs : List ℕ) → length (address xs) ≡ 20
unfolding address
length-address xs = ground (arith, left_pad_bytes_lem xs 20, length-drop (length xs - 20) xs)

zeros_to_bytes :
    (n num : ℕ)
    → (from_bytes (replicate n 0 ++ to_bytes num) ≡ num)
      × (length (replicate n 0 ++ to_bytes num) ≡ n + length (to_bytes num))
zeros_to_bytes n num = (
  from_bytes-zeros n (to_bytes num) ∙ from_bytes-to_bytes num,
  omega (arith, length-append (replicate n 0) (to_bytes num), length-replicate {A = ℕ} n 0),
)

-- `big_to_bytes` writes bytes that read back as the number, and exactly `k` of them if the number
-- fits in the `8 * k` bits that are asked for.
pub big_to_bytes_lem :
    (num k : ℕ)
    → (from_bytes (big_to_bytes num (8 * k)) ≡ num)
      × (num < 256 ^ k → length (big_to_bytes num (8 * k)) ≡ k)
unfolding big_to_bytes
big_to_bytes_lem num k = (
  ground (arith, from_bytes-to_bytes num, zeros_to_bytes (8 * k / 8 - length (to_bytes num)) num),
  λ h.
      ground (arith, length-to_bytes k num, zeros_to_bytes (8 * k / 8 - length (to_bytes num)) num),
)
