-- ===== src/Ethutil/Rlp/RoundTrip.antt =====
-- What `Encode` writes, `Decode` reads back, up to the forms that a decoder can tell apart.
mod Parts
mod Header
unfoldable pub use Parts.{decoded_bytes}
use eth_go.Common.{
  ℕ, zero, suc, ◌+◌, ◌-◌, ◌*◌, ◌%◌, ◌^◌, ◌≤◌, ◌<◌, ◌≡◌, refl, sym, ap, ◌∙◌, arith, List, [], ◌∷◌,
  ◌++◌, append_assoc, append-nil, length, length-append, Result, ok, ◌>>=◌, ltb, Bool-cases, inl,
  inr, All, if◌then◌else◌,
}
use eth_go.Common.Int.{ℤ, nat_abs}
use eth_go.Ethutil.Bytes.{IsByte, to_bytes}
use eth_go.Ethutil.Item.{
  Item, Items, IntKind, nil_value, num, byte, big, nil_big, bytes, str, slice, value, other, nil,
  cons, to_int64,
}
use eth_go.Ethutil.Rlp.{
  big_bytes, is_direct, encode, encode_items, encode_bytes, write_slice_header, add64, sub64,
  decode_fuel, decode_loop, decode,
}
use eth_go.Ethutil.Rlp.Total.{Fits}
use eth_go.Ethutil.Rlp.RoundTrip.Parts.{Small, Reads, encode_bytes-Reads}
use eth_go.Ethutil.Rlp.RoundTrip.Header.{LoopReads, header-Reads}

-- The value that a decoder returns for what `Encode` writes for an item.
unfoldable mutual
  pub decoded : Item → Item
  decoded nil_value = slice nil
  decoded (num k z) = decoded_bytes (big_bytes (to_int64 z))
  decoded (byte b) = decoded_bytes (to_bytes b)
  decoded (big z) = decoded_bytes (big_bytes z)
  decoded nil_big = slice nil
  decoded (bytes t) = decoded_bytes t
  decoded (str t) = decoded_bytes t
  decoded (slice xs) = slice (decoded_items xs)
  decoded (value v) = decoded v
  decoded other = other

  pub decoded_items : Items → Items
  decoded_items nil = nil
  decoded_items (cons x xs) = cons (decoded x) (decoded_items xs)

-- No part is of a type that `Encode` passes over in silence.
abbrev mutual
  pub IsEncodable : Item → Type 0
  IsEncodable (slice xs) = AreEncodable xs
  IsEncodable (value v) = IsEncodable v
  IsEncodable other = ⊥
  IsEncodable nil_value = Unit
  IsEncodable (num k z) = Unit
  IsEncodable (byte b) = Unit
  IsEncodable (big z) = Unit
  IsEncodable nil_big = Unit
  IsEncodable (bytes t) = Unit
  IsEncodable (str t) = Unit

  pub AreEncodable : Items → Type 0
  AreEncodable nil = Unit
  AreEncodable (cons x xs) = IsEncodable x × AreEncodable xs

length-encode_bytes :
    (t : List ℕ) → (length t ≤ length (encode_bytes t)) × (0 < length (encode_bytes t))
unfolding encode_bytes is_direct
length-encode_bytes [] = (omega arith, omega arith)
length-encode_bytes (b ∷ []) = ground (arith)
length-encode_bytes (b ∷ c ∷ t) =
    ground (arith, length-append (to_bytes (length (b ∷ c ∷ t))) (b ∷ c ∷ t))

length-write_slice_header : (n : ℕ) → 0 < length (write_slice_header n)
unfolding write_slice_header
length-write_slice_header n = ground arith

-- Every encodable item takes a byte at least.
pub length-encode_pos : (x : Item) → IsEncodable x → 0 < length (encode x)
unfolding encode
length-encode_pos nil_value h = omega arith
length-encode_pos (num k z) h = (length-encode_bytes _).1
length-encode_pos (byte b) h = (length-encode_bytes _).1
length-encode_pos (big z) h = (length-encode_bytes _).1
length-encode_pos nil_big h = omega arith
length-encode_pos (bytes t) h = (length-encode_bytes t).1
length-encode_pos (str t) h = (length-encode_bytes t).1
length-encode_pos (slice xs) h = omega (
  arith,
  length-append (write_slice_header (length (encode_items xs))) (encode_items xs),
  length-write_slice_header (length (encode_items xs)),
)
length-encode_pos (value v) h = length-encode_pos v h
length-encode_pos other h = absurd h

-- Two units of fuel for a byte are enough.
abbrev ReadsItem : Item → Type 0
ReadsItem x =
    IsEncodable x → (fuel : ℕ) → 2 * length (encode x) ≤ fuel → Reads fuel (encode x) (decoded x)

abbrev ReadsItems : Items → Type 0
ReadsItems xs =
    AreEncodable xs
    → (fuel : ℕ) → 2 * length (encode_items xs) < fuel
    → (pre post : List ℕ) (n i b : ℕ) → Small (length pre + length (encode_items xs))
    → length pre + length (encode_items xs) ≤ n
    → b ≡ i + length (encode_items xs)
    → Small b
    → decode_loop fuel (pre ++ (encode_items xs ++ post)) n (length pre) i b
      ≡ ok (decoded_items xs, length pre + length (encode_items xs))

whole_length :
    (pre xs post : List ℕ) → length (pre ++ (xs ++ post)) ≡ length pre + length xs + length post
whole_length pre xs post = omega (arith, length-append pre (xs ++ post), length-append xs post)

leaf-Reads :
    (t : List ℕ) (fuel : ℕ)
    → 2 * length (encode_bytes t) ≤ fuel
    → Reads fuel (encode_bytes t) (decoded_bytes t)
leaf-Reads t zero h pre post n fits le = absurd (omega (arith, length-encode_bytes t))
leaf-Reads t (suc fuel) h pre post n fits le =
    encode_bytes-Reads fuel t (omega (arith, length-encode_bytes t)) pre post n fits le

loop_end :
    (fuel : ℕ) (data' : List ℕ) (n pos i b : ℕ)
    → b ≡ i
    → decode_loop (suc fuel) data' n pos i b ≡ ok (nil, pos)
unfolding decode_fuel
loop_end fuel data' n pos i b h = ground arith

loop_step :
    (fuel : ℕ) (data' : List ℕ) (n pos i b prev end : ℕ) (obj : Item) (rest : Items)
    → i < b
    → decode_fuel fuel data' n pos ≡ ok (obj, prev)
    → decode_loop fuel data' n prev (add64 i (sub64 prev pos)) b ≡ ok (rest, end)
    → decode_loop (suc fuel) data' n pos i b ≡ ok (cons obj rest, end)
unfolding decode_fuel
loop_step fuel data' n pos i b prev end obj rest lt first second = ground arith

-- A list reads back, if its loop reads the body wherever that stands.
list-Reads :
    (fuel : ℕ) (body : List ℕ) (xs : Items)
    → ((pre post : List ℕ) (n : ℕ)
        → Small (length pre + length body)
        → length pre + length body ≤ n
        → decode_loop fuel (pre ++ (body ++ post)) n (length pre) 0 (length body)
          ≡ ok (xs, length pre + length body))
    → Reads (suc fuel) (write_slice_header (length body) ++ body) (slice xs)
list-Reads fuel body xs loop pre post n fits le =
    let header = write_slice_header (length body) in
    let joined =
      loop (pre ++ header) post n
        (omega (arith, length-append pre header, length-append header body))
        (omega (arith, length-append pre header, length-append header body)) in
    rw (append_assoc header body post) (
      header-Reads fuel n pre body post xs inside (omega (arith, length-append header body))
        (omega (arith, length-append header body))
        (rw (append_assoc pre header (body ++ post), length-append pre header) at joined)
      ∙ ground (arith, length-append header body))
  where
    inside : length pre < n
    inside = omega (
      arith,
      length-append (write_slice_header (length body)) body,
      length-write_slice_header (length body),
    )

empty_list-Reads : (fuel : ℕ) → 2 ≤ fuel → Reads fuel (0xc0 ∷ []) (slice nil)
unfolding write_slice_header
empty_list-Reads zero h = absurd (omega arith)
empty_list-Reads (suc zero) h = absurd (omega arith)
empty_list-Reads (suc (suc fuel)) h =
    list-Reads (suc fuel) [] nil
      λ pre post n fits le. loop_end fuel (pre ++ post) n (length pre) 0 0 refl ∙ ground arith

slice-Reads : (xs : Items) → ReadsItems xs → ReadsItem (slice xs)
unfolding encode decoded
slice-Reads xs ih h zero hf = absurd (omega (arith, length-encode_pos (slice xs) h))
slice-Reads xs ih h (suc fuel) hf =
    list-Reads fuel (encode_items xs) (decoded_items xs) λ pre post n fits le.
      ih h fuel enough pre post n 0 (length (encode_items xs)) fits le (omega arith) (omega arith)
  where
    enough : 2 * length (encode_items xs) < fuel
    enough = omega (
      arith,
      length-append (write_slice_header (length (encode_items xs))) (encode_items xs),
      length-write_slice_header (length (encode_items xs)),
    )

nil-Reads : ReadsItems nil
unfolding encode decoded
nil-Reads h zero hf pre post n i b fits le e small = absurd (omega arith)
nil-Reads h (suc fuel) hf pre post n i b fits le e small =
    loop_end fuel (pre ++ post) n (length pre) i b (omega arith) ∙ ground arith

-- The counter of the loop goes on by the bytes that were read.
advance : (i pos n : ℕ) → i + n < 2 ^ 63 → pos + n < 2 ^ 63 → add64 i (sub64 (pos + n) pos) ≡ i + n
advance i pos n h k = omega arith

cons-Reads : (x : Item) (xs : Items) → ReadsItem x → ReadsItems xs → ReadsItems (cons x xs)
unfolding encode decoded
cons-Reads x xs ix ixs (hx, hxs) zero hf pre post n i b fits le e small = absurd (omega arith)
cons-Reads x xs ix ixs (hx, hxs) (suc fuel) hf pre post n i b fits le e small =
    let ex = encode x in
    let exs = encode_items xs in
    let sizes = length-append ex exs in
    let some_byte = length-encode_pos x hx in
    let behind =
      ixs hxs fuel (omega (arith, sizes, some_byte)) (pre ++ ex) post n (i + length ex) b
        (omega (arith, sizes, length-append pre ex)) (omega (arith, sizes, length-append pre ex))
        (omega (arith, sizes)) small in
    rw (append_assoc ex exs post) (
      loop_step fuel (pre ++ (ex ++ (exs ++ post))) n (length pre) i b (length pre + length ex)
        (length pre + length (ex ++ exs)) (decoded x) (decoded_items xs)
        (omega (arith, sizes, some_byte))
        (ix hx fuel (omega (arith, sizes, some_byte)) pre (exs ++ post) n (omega (arith, sizes))
          (omega (arith, sizes)))
        (rw (advance i (length pre) (length ex) (omega (arith, sizes)) (omega (arith, sizes))) (
          (rw (append_assoc pre ex (exs ++ post), length-append pre ex) at behind)
          ∙ ground (arith, sizes))))

item-Reads : (x : Item) → ReadsItem x
unfolding encode decoded
item-Reads x = elim x as ReadsItem ReadsItems [
  | nil_value ↦ λ h fuel hf. empty_list-Reads fuel (omega arith)
  | num k z ↦ λ h. leaf-Reads (big_bytes (to_int64 z))
  | byte b ↦ λ h. leaf-Reads (to_bytes b)
  | big z ↦ λ h. leaf-Reads (big_bytes z)
  | nil_big ↦ λ h fuel hf. empty_list-Reads fuel (omega arith)
  | bytes t ↦ λ h. leaf-Reads t
  | str t ↦ λ h. leaf-Reads t
  | slice (xs → ih) ↦ slice-Reads xs ih
  | value (v → ih) ↦ ih
  | other ↦ λ h. absurd h
  | nil ↦ nil-Reads
  | cons (x → ih) (xs → ihs) ↦ cons-Reads x xs ih ihs
]

-- `Decode` at the position of an encoded item returns the decoder's form of it and the position
-- behind it, whatever stands around it in the data and behind the data within its capacity.
pub decode-encode :
    (x : Item) (pre post spare : List ℕ)
    → IsEncodable x
    → length pre + length (encode x) < 2 ^ 63
    → decode spare (pre ++ (encode x ++ post)) (length pre)
      ≡ ok (decoded x, length pre + length (encode x))
unfolding decode
decode-encode x pre post spare h fits =
    let n = length (pre ++ (encode x ++ post)) in
    rw joined (
      item-Reads x h (2 * (n + length spare) + 2) (omega (arith, whole_length pre (encode x) post))
        pre (post ++ spare) n fits (omega (arith, whole_length pre (encode x) post)))
  where
    joined : (pre ++ (encode x ++ post)) ++ spare ≡ pre ++ (encode x ++ (post ++ spare))
    joined =
        append_assoc pre (encode x ++ post) spare
        ∙ ap (λ t. pre ++ t) (append_assoc (encode x) post spare)
