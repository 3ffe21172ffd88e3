-- ===== src/Ethtrie/Encoding/RoundTrip.antt =====
-- Keys and their encodings are inverse to one another.
use eth_go.Common.{
  ℕ, ◌+◌, ◌-◌, ◌*◌, ◌/◌, ◌%◌, ◌<◌, ◌≡◌, refl, sym, ap, ap₂, ◌∙◌, arith, List, [], ◌∷◌, ◌++◌,
  append-nil, Bool, true, false, ◌==◌, ==_iff, if◌then◌else◌, length, length-append,
  get_elem?-append, All, All-get_elem?, get_elem?-some, ok, ◌>>=◌, some, slice as slice_of,
  slice-append, holds_upto, table_entry,
}
use eth_go.Ethutil.Bytes.{IsByte}
use eth_go.Ethtrie.Encoding.{
  base, hex_digit, index_byte, compact_hex_decode, pack_nibbles, encode_flags, compact_encode,
  decode_flags, compact_decode, hex_string, pair_digits, decode_compact,
}

abbrev pub IsNibble : ℕ → Type 0
IsNibble n = n < 16

-- A hex digit stands in `base` at the nibble that it is for.
index_byte-hex_digit : (n : ℕ) → IsNibble n → index_byte base (hex_digit n) ≡ n
index_byte-hex_digit n h = (==_iff _ n).0 (table_entry right n 16 h table)
  where
    right : ℕ → Bool
    right d = index_byte base (hex_digit d) == d

    table : holds_upto right 16 ≡ true
    table = unfold holds_upto index_byte hex_digit in refl

-- The nibbles of some bytes.
unfoldable pub split_nibbles : List ℕ → List ℕ
split_nibbles [] = []
split_nibbles (b ∷ bs) = b / 16 ∷ b % 16 ∷ split_nibbles bs

-- `CompactHexDecode` gives the nibbles of a key and the terminator.
pub compact_hex_decode_lem :
    (s : List ℕ) → All IsByte s → compact_hex_decode s ≡ split_nibbles s ++ (16 ∷ [])
unfolding compact_hex_decode split_nibbles
compact_hex_decode_lem [] h = refl
compact_hex_decode_lem (b ∷ s) (hb, h) =
    rw (index_byte-hex_digit (b / 16) (omega arith), index_byte-hex_digit (b % 16) (omega arith))
      (ap (λ l. b / 16 ∷ b % 16 ∷ l) (compact_hex_decode_lem s h))

decode_compact_digits :
    (s : List ℕ) → All IsByte s → pair_digits (hex_string (split_nibbles s ++ (16 ∷ []))) ≡ some s
unfolding pair_digits hex_string split_nibbles
decode_compact_digits [] h = refl
decode_compact_digits (b ∷ s) (hb, h) =
    ground (
      arith,
      decode_compact_digits s h,
      index_byte-hex_digit (b / 16),
      index_byte-hex_digit (b % 16),
    )

-- `DecodeCompact` gives a key back from its nibbles.
pub decode_compact-compact_hex_decode :
    (s : List ℕ) → All IsByte s → decode_compact (compact_hex_decode s) ≡ s
unfolding decode_compact
decode_compact-compact_hex_decode s h =
    ground (arith, compact_hex_decode_lem s h, decode_compact_digits s h)

-- An even number of nibbles is packed into bytes with these nibbles.
record IsPacked (l bs : List ℕ) : Type 0 where
  packs : pack_nibbles l ≡ ok bs
  bytes : All IsByte bs
  nibbles : split_nibbles bs ≡ l

pack_even : (l : List ℕ) → length l % 2 ≡ 0 → All IsNibble l → (bs : List ℕ) × IsPacked l bs
unfolding pack_nibbles split_nibbles
pack_even [] h n = ([], record { packs = refl; bytes = tt; nibbles = refl })
pack_even (a ∷ []) h n = absurd (omega arith)
pack_even (a ∷ b ∷ l) h (ha, (hb, hl)) =
    let (bs, p) = pack_even l (omega arith) hl in
    (
      (16 * a + b) % 256 ∷ bs,
      record {
        packs = rw p.packs;
        bytes = (omega arith, p.bytes);
        nibbles = ap₂ (λ x y. x ∷ y) (omega arith) (ap₂ (λ x y. x ∷ y) (omega arith) p.nibbles);
      },
    )

-- A key of nibbles, with the terminator behind it or without.
abbrev pub key : List ℕ → Bool → List ℕ
key body t = if t then body ++ (16 ∷ []) else body

abbrev flags_of : List ℕ → Bool → ℕ
flags_of body t = 2 * (if t then 1 else 0) + length body % 2

abbrev prefixed : List ℕ → Bool → List ℕ
prefixed body t =
    if length body % 2 == 0 then flags_of body t ∷ 0 ∷ body else flags_of body t ∷ body

compact_encode-true :
    (body : List ℕ) → compact_encode (body ++ (16 ∷ [])) ≡ pack_nibbles (prefixed body true)
unfolding compact_encode encode_flags
compact_encode-true body = ground (
  arith,
  length-append body (16 ∷ []),
  get_elem?-append body 16 [] (length body),
  slice-append [] body (16 ∷ []) 0 (length body),
)

compact_encode-false :
    (body : List ℕ)
    → All IsNibble body
    → 0 < length body
    → compact_encode body ≡ pack_nibbles (prefixed body false)
unfolding compact_encode encode_flags
compact_encode-false body h pos =
    let (last, e) = get_elem?-some body (length body - 1) (omega arith) in
    ground (
      arith,
      e,
      All-get_elem? IsNibble body (length body - 1) last h e,
      ap (λ l. slice_of l 0 (length body)) (append-nil body),
      slice-append [] body [] 0 (length body),
    )

compact_encode-key :
    (body : List ℕ) (t : Bool)
    → All IsNibble body
    → 0 < length (key body t)
    → compact_encode (key body t) ≡ pack_nibbles (prefixed body t)
compact_encode-key body true h pos = compact_encode-true body
compact_encode-key body false h pos = compact_encode-false body h pos

-- The flags are nibbles, and with them the number of nibbles is even.
prefixed_lem :
    (body : List ℕ) (t : Bool)
    → All IsNibble body
    → All IsNibble (prefixed body t) × (length (prefixed body t) % 2 ≡ 0)
prefixed_lem body true h = ground arith
prefixed_lem body false h = ground arith

-- What stands behind the flags, up to the end.
slice_rest :
    (front rest : List ℕ) (from : ℕ)
    → from ≡ length front
    → slice_of (front ++ rest) from (length (front ++ rest)) ≡ ok rest
slice_rest front rest from h =
    ap (λ l. slice_of (front ++ l) from (length (front ++ rest))) (sym (append-nil rest))
    ∙ slice-append front rest [] from (length (front ++ rest)) h (length-append front rest)

decode_flags-prefixed :
    (body : List ℕ) (t : Bool) → decode_flags (prefixed body t) ≡ ok (key body t)
unfolding decode_flags
decode_flags-prefixed body true = ground (
  arith,
  slice_rest (2 ∷ 0 ∷ []) (body ++ (16 ∷ [])) 2,
  slice_rest (3 ∷ []) (body ++ (16 ∷ [])) 1,
)
decode_flags-prefixed body false =
    ground (arith, slice_rest (0 ∷ 0 ∷ []) body 2, slice_rest (1 ∷ []) body 1)

-- The part of `CompactDecode` behind the hex form, on the nibbles of the bytes.
compact_decode_packed :
    (body : List ℕ) (t : Bool) (bs : List ℕ)
    → IsPacked (prefixed body t) bs
    → compact_decode bs ≡ ok (key body t)
unfolding compact_decode
compact_decode_packed body t bs p =
    rw (compact_hex_decode_lem bs p.bytes, p.nibbles)
      (rw
        (slice-append [] (prefixed body t) (16 ∷ []) 0 (length (prefixed body t ++ (16 ∷ [])) - 1)
          refl (omega (arith, length-append (prefixed body t) (16 ∷ []))))
        (decode_flags-prefixed body t))

-- A key that is not empty comes back from its compact form: `CompactEncode` does not panic, and
-- `CompactDecode` returns the nibbles and the terminator.
pub compact_decode-compact_encode :
    (body : List ℕ) (t : Bool)
    → All IsNibble body
    → 0 < length (key body t)
    → (compact_encode (key body t) >>= compact_decode) ≡ ok (key body t)
compact_decode-compact_encode body t h pos =
    let (nibbles, even) = prefixed_lem body t h in
    let (bs, p) = pack_even (prefixed body t) even nibbles in
    rw (compact_encode-key body t h pos, p.packs) (compact_decode_packed body t bs p)
