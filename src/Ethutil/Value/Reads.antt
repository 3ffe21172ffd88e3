-- ===== src/Ethutil/Value/Reads.antt =====
-- What the methods of a value read off a decoded item is what was encoded.
use eth_go.Common.{
  ℕ, zero, suc, ◌%◌, ◌^◌, ◌<◌, ◌≡◌, refl, ap, ◌∙◌, arith, List, [], ◌∷◌, append-nil, length, ok,
  some,
}
use eth_go.Common.Int.{ℤ, pos, nat_abs}
use eth_go.Ethutil.Bytes.{to_bytes, from_bytes}
use eth_go.Ethutil.Bytes.Numbers.{from_bytes-to_bytes}
use eth_go.Ethutil.Item.{
  Item, Items, IntKind, num, byte, big, bytes, str, slice, value, other, nil, cons, length_items,
}
use eth_go.Ethutil.Rlp.{encode, decode}
use eth_go.Ethutil.Rlp.Total.{Fits}
use eth_go.Ethutil.Rlp.RoundTrip.{
  decoded, decoded_bytes, IsEncodable, AreEncodable, length-encode_pos, decode-encode,
}
use eth_go.Ethutil.Value.{
  uint_of, big_int, bytes_of, str_of, get, item_at, new_value, new_value_from_bytes,
  new_value_from_slice, string_of_byte,
}

-- A value comes back from its encoding in the decoder's form, whatever stands behind it.
pub new_value_from_slice-encode :
    (spare : List ℕ) (x : Item)
    → IsEncodable x
    → Fits (encode x)
    → new_value_from_slice spare (encode x) ≡ ok (decoded x)
unfolding new_value_from_slice
new_value_from_slice-encode spare x h fits = whole (encode x) (length-encode_pos x h) read
  where
    read : decode spare (encode x) 0 ≡ ok (decoded x, length (encode x))
    read =
        (rw append-nil at (decode-encode x [] [] spare h (omega (arith, fits))))
        ∙ ap (λ n. ok (decoded x, n)) (omega arith)

    whole :
        (t : List ℕ)
        → 0 < length t
        → {n : ℕ} → decode spare t 0 ≡ ok (decoded x, n)
        → new_value_from_slice spare t ≡ ok (decoded x)
    whole [] p e = absurd (omega arith)
    whole (b ∷ bs) p e = rw e

pub new_value_from_bytes-encode :
    (x : Item) → IsEncodable x → Fits (encode x) → new_value_from_bytes (encode x) ≡ ok (decoded x)
new_value_from_bytes-encode x h fits = new_value_from_slice-encode [] x h fits

-- The bytes and the string of a decoded byte string are that string, single bytes included.
pub bytes_of-decoded_bytes : (t : List ℕ) → bytes_of (decoded_bytes t) ≡ ok t
unfolding decoded_bytes bytes_of
bytes_of-decoded_bytes [] = refl
bytes_of-decoded_bytes (b ∷ []) = ground arith
bytes_of-decoded_bytes (b ∷ c ∷ t) = refl

pub str_of-decoded_bytes : (t : List ℕ) → str_of (decoded_bytes t) ≡ t
unfolding decoded_bytes str_of string_of_byte
str_of-decoded_bytes [] = refl
str_of-decoded_bytes (b ∷ []) = ground arith
str_of-decoded_bytes (b ∷ c ∷ t) = refl

from_bytes_one : (b : ℕ) → from_bytes (b ∷ []) ≡ b
unfolding from_bytes
from_bytes_one b = omega arith

pub uint_of-decoded_bytes : (t : List ℕ) → uint_of (decoded_bytes t) ≡ ok (from_bytes t % 2 ^ 64)
unfolding decoded_bytes uint_of
uint_of-decoded_bytes [] = refl
uint_of-decoded_bytes (b ∷ []) = ground (arith, from_bytes_one b)
uint_of-decoded_bytes (b ∷ c ∷ t) = refl

pub big_int-decoded_bytes :
    (t : List ℕ) → big_int (decoded_bytes t) ≡ ok (some (pos (from_bytes t)))
unfolding decoded_bytes big_int
big_int-decoded_bytes [] = refl
big_int-decoded_bytes (b ∷ []) = ground (arith, from_bytes_one b)
big_int-decoded_bytes (b ∷ c ∷ t) = refl

-- An unsigned number below 2 ^ 63 comes back through `Uint`.
pub uint_of-decoded : (k : IntKind) (n : ℕ) → n < 2 ^ 63 → uint_of (decoded (num k (pos n))) ≡ ok n
unfolding decoded
uint_of-decoded k n h = ground (arith, uint_of-decoded_bytes (to_bytes n), from_bytes-to_bytes n)

-- A big integer comes back through `BigInt` without its sign.
pub big_int-decoded : (z : ℤ) → big_int (decoded (big z)) ≡ ok (some (pos (nat_abs z)))
unfolding decoded
big_int-decoded z = rw (big_int-decoded_bytes, from_bytes-to_bytes)

new_value-decoded_bytes : (t : List ℕ) → new_value (decoded_bytes t) ≡ decoded_bytes t
unfolding new_value decoded_bytes
new_value-decoded_bytes [] = refl
new_value-decoded_bytes (b ∷ []) = ground arith
new_value-decoded_bytes (b ∷ c ∷ t) = refl

new_value-decoded : (x : Item) → IsEncodable x → new_value (decoded x) ≡ decoded x
unfolding decoded new_value
new_value-decoded (num k z) h = new_value-decoded_bytes _
new_value-decoded (byte b) h = new_value-decoded_bytes _
new_value-decoded (big z) h = new_value-decoded_bytes _
new_value-decoded (bytes t) h = new_value-decoded_bytes t
new_value-decoded (str t) h = new_value-decoded_bytes t
new_value-decoded (value v) h = new_value-decoded v h
new_value-decoded other h = absurd h
new_value-decoded _ h = refl

-- `Get` within a decoded list gives the decoded item.
pub get-decoded :
    (xs : Items) (i : ℕ)
    → AreEncodable xs
    → i < length_items xs
    → get (decoded (slice xs)) (pos i) ≡ decoded (item_at xs i)
unfolding decoded get
get-decoded nil i h lt = absurd (omega arith)
get-decoded (cons x xs) zero (hx, hxs) lt = new_value-decoded x hx
get-decoded (cons x xs) (suc i) (hx, hxs) lt = get-decoded xs i hxs (omega arith)
