-- ===== src/Ethutil/Rlp/Canonical.antt =====
-- When a decoded item is encoded again.
use eth_go.Common.{
  ℕ, zero, suc, ◌-◌, ◌/◌, ◌%◌, ◌^◌, ◌<◌, ◌≡◌, ◌≢◌, refl, sym, ap, ap₂, ◌∙◌, arith, List, [], ◌∷◌,
  ◌++◌, append-nil, length, ok,
}
use eth_go.Common.Int.{pos, nat_abs}
use eth_go.Ethutil.Bytes.{to_bytes, from_bytes}
use eth_go.Ethutil.Bytes.Numbers.{to_bytes-pos, to_bytes-zero, from_bytes-to_bytes}
use eth_go.Ethutil.Item.{
  Item, Items, nil_value, num, byte, big, nil_big, bytes, str, slice, value, other, nil, cons,
  to_int64, uint64,
}
use eth_go.Ethutil.Rlp.{is_direct, encode_bytes, encode, encode_items, write_slice_header, decode}
use eth_go.Ethutil.Rlp.Total.{Fits}
use eth_go.Ethutil.Rlp.RoundTrip.{decoded, decoded_items, decoded_bytes, IsEncodable, decode-encode}

-- The byte strings that come back as they were: all but the single zero byte.
abbrev pub IsStable : List ℕ → Type 0
IsStable t = t ≢ 0 ∷ []

abbrev mutual
  pub HasStableBytes : Item → Type 0
  HasStableBytes (bytes t) = IsStable t
  HasStableBytes (str t) = IsStable t
  HasStableBytes (slice xs) = HaveStableBytes xs
  HasStableBytes (value v) = HasStableBytes v
  HasStableBytes nil_value = Unit
  HasStableBytes (num k z) = Unit
  HasStableBytes (byte b) = Unit
  HasStableBytes (big z) = Unit
  HasStableBytes nil_big = Unit
  HasStableBytes other = Unit

  pub HaveStableBytes : Items → Type 0
  HaveStableBytes nil = Unit
  HaveStableBytes (cons x xs) = HasStableBytes x × HaveStableBytes xs

to_bytes_one : (b : ℕ) → 0 < b → b < 256 → to_bytes b ≡ b ∷ []
to_bytes_one b p q = to_bytes-pos b p ∙ rw (quotient, remainder, to_bytes-zero)
  where
    quotient : b / 256 ≡ 0
    quotient = omega arith

    remainder : b % 256 ≡ b
    remainder = omega arith

encode-decoded_bytes : (t : List ℕ) → IsStable t → encode (decoded_bytes t) ≡ encode_bytes t
unfolding encode decoded_bytes
encode-decoded_bytes [] h = refl
encode-decoded_bytes (zero ∷ []) h = absurd (h refl)
encode-decoded_bytes (suc b ∷ []) h = ground (arith, to_bytes_one (suc b))
encode-decoded_bytes (b ∷ c ∷ t) h = refl

-- The bytes of a number have no leading zero.
to_bytes-IsStable : (n : ℕ) → IsStable (to_bytes n)
unfolding from_bytes
to_bytes-IsStable n e =
    let zero_number : n ≡ 0 = sym (from_bytes-to_bytes n) ∙ ap from_bytes e in
    cc (e, ap to_bytes zero_number, to_bytes-zero)

read_whole :
    (x : Item) (spare : List ℕ)
    → IsEncodable x
    → Fits (encode x)
    → decode spare (encode x) 0 ≡ ok (decoded x, length (encode x))
read_whole x spare h fits =
    (rw append-nil at (decode-encode x [] [] spare h (omega (arith, fits))))
    ∙ ap (λ n. ok (decoded x, n)) (omega arith)

mutual
  unfolding encode decoded write_slice_header

  encode-decoded_lem : (x : Item) → HasStableBytes x → encode (decoded x) ≡ encode x
  encode-decoded_lem nil_value h = refl
  encode-decoded_lem (num k z) h = encode-decoded_bytes _ (to_bytes-IsStable _)
  encode-decoded_lem (byte b) h = encode-decoded_bytes _ (to_bytes-IsStable b)
  encode-decoded_lem (big z) h = encode-decoded_bytes _ (to_bytes-IsStable _)
  encode-decoded_lem nil_big h = refl
  encode-decoded_lem (bytes t) h = encode-decoded_bytes t h
  encode-decoded_lem (str t) h = encode-decoded_bytes t h
  encode-decoded_lem (slice xs) h =
      ap (λ l. write_slice_header (length l) ++ l) (encode_items-decoded xs h)
  encode-decoded_lem (value v) h = encode-decoded_lem v h
  encode-decoded_lem other h = refl

  encode_items-decoded :
      (xs : Items) → HaveStableBytes xs → encode_items (decoded_items xs) ≡ encode_items xs
  encode_items-decoded nil h = refl
  encode_items-decoded (cons x xs) (hx, hxs) =
      ap₂ ◌++◌ (encode-decoded_lem x hx) (encode_items-decoded xs hxs)

-- The value that Decode reads from the encoding of an item with no single zero byte in it has the
-- same encoding as the item, and Decode stops right behind what Encode wrote.
pub encode-decode :
    (x : Item) (spare : List ℕ)
    → IsEncodable x
    → HasStableBytes x
    → Fits (encode x)
    → (v : Item) × (decode spare (encode x) 0 ≡ ok (v, length (encode x))) × (encode v ≡ encode x)
encode-decode x spare h stable fits =
    (decoded x, read_whole x spare h fits, encode-decoded_lem x stable)

append_cancel : (xs ys zs : List ℕ) → xs ++ ys ≡ xs ++ zs → ys ≡ zs
append_cancel [] ys zs e = e
append_cancel (x ∷ xs) ys zs e = append_cancel xs ys zs (cc)

-- In a list the string of one zero byte comes back from the decoder as the byte 0, and that is
-- encoded as the empty string: the list has another encoding than before.
pub encode-decoded_zero :
    (xs : Items)
    → HaveStableBytes xs
    → encode (decoded (slice (cons (bytes (0 ∷ [])) xs)))
      ≢ encode (slice (cons (bytes (0 ∷ [])) xs))
unfolding encode decoded decoded_bytes encode_bytes is_direct to_bytes
encode-decoded_zero xs h e =
    let rest = encode_items xs in
    let decoded_rest = encode_items (decoded_items xs) in
    let same : decoded_rest ≡ rest = encode_items-decoded xs h in
    cc (
      append_cancel (write_slice_header (suc (length rest))) (0x80 ∷ rest) (0 ∷ rest)
        (ap (λ r. write_slice_header (suc (length r)) ++ (0x80 ∷ r)) (sym same) ∙ e))

-- An unsigned number above 2 ^ 63 is taken for a negative one and has the encoding of another number.
pub encode_wraps :
    (n : ℕ)
    → 2 ^ 63 < n
    → n < 2 ^ 64
    → encode (num uint64 (pos n)) ≡ encode (num uint64 (pos (2 ^ 64 - n)))
unfolding encode
encode_wraps n lo hi = ap (λ m. encode_bytes (to_bytes m)) same
  where
    same : nat_abs (to_int64 (pos n)) ≡ nat_abs (to_int64 (pos (2 ^ 64 - n)))
    same = ground arith
