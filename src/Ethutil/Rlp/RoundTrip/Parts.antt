-- ===== src/Ethutil/Rlp/RoundTrip/Parts.antt =====
-- The parts of an encoding, each read back by the case of `Decode` that it is for. The data is
-- given around them: `pre` stands before the position, `post` behind the value.
use eth_go.Common.{
  ℕ, suc, ◌+◌, ◌-◌, ◌%◌, ◌^◌, ◌≤◌, ◌<◌, ◌≡◌, refl, ◌∙◌, arith, List, [], ◌∷◌, ◌++◌, append_assoc,
  length, length-append, ok, slice as slice_of, slice-append, get_elem?-append, true, false, leb,
  ltb, leb→le, ltb→lt, lt→ltb, Bool-cases, inl, inr, if◌then◌else◌,
}
use eth_go.Ethutil.Bytes.{to_bytes}
use eth_go.Ethutil.Bytes.Numbers.{from_bytes-to_bytes, length-to_bytes, length-to_bytes_pos}
use eth_go.Ethutil.Bytes.Pads.{read_var_int-from_bytes}
use eth_go.Ethutil.Item.{Item, byte, bytes}
use eth_go.Ethutil.Rlp.{
  is_direct, encode_bytes, add64, decode_short, decode_length, decode_long, decode_char,
  byte_within, decode_fuel, decode_loop,
}

abbrev pub Small : ℕ → Type 0
Small n = n < 2 ^ 63

-- `ys` stands behind the position, one byte and `head`.
slice_behind :
    (pre : List ℕ) (c : ℕ) (head ys post : List ℕ) (from to : ℕ)
    → from ≡ length pre + 1 + length head
    → to ≡ length pre + 1 + length head + length ys
    → slice_of (pre ++ (c ∷ (head ++ (ys ++ post)))) from to ≡ ok ys
slice_behind pre c head ys post from to hf ht = rw (← append_assoc pre (c ∷ head) (ys ++ post)) (
    slice-append (pre ++ c ∷ head) ys post from to (omega (arith, length-append pre (c ∷ head)))
      (omega (arith, length-append pre (c ∷ head))))

length_behind :
    (pre : List ℕ) (c : ℕ) (head ys post : List ℕ)
    → length (pre ++ (c ∷ (head ++ (ys ++ post))))
      ≡ length pre + 1 + length head + length ys + length post
length_behind pre c head ys post = omega (
  arith,
  length-append pre (c ∷ (head ++ (ys ++ post))),
  length-append head (ys ++ post),
  length-append ys post,
)

module _ (pre : List ℕ) (c : ℕ) (t post : List ℕ) where
  decode_short_lem :
      Small (length pre + 1 + length t)
      → decode_short (pre ++ (c ∷ (t ++ post))) (length pre) (length t)
        ≡ ok (bytes t, length pre + 1 + length t)
  unfolding decode_short
  decode_short_lem fits = ground (
    arith,
    length_behind pre c [] t post,
    slice_behind pre c [] t post (add64 (length pre) 1) (add64 (add64 (length pre) 1) (length t)),
  )

module _ (pre : List ℕ) (c n : ℕ) (rest : List ℕ) (small : Small n) where
  pub decode_length_lem :
      Small (length pre + 1 + length (to_bytes n))
      → decode_length (pre ++ (c ∷ (to_bytes n ++ rest))) (length pre) (length (to_bytes n))
        ≡ ok (n, length pre + 1 + length (to_bytes n))
  unfolding decode_length
  decode_length_lem fits = ground (
    arith,
    length_behind pre c [] (to_bytes n) rest,
    slice_behind pre c [] (to_bytes n) rest (add64 (length pre) 1)
        (add64 (add64 (length pre) 1) (length (to_bytes n))),
    length-to_bytes 8 n,
    read_var_int-from_bytes (to_bytes n),
    from_bytes-to_bytes n,
  )

module _ (pre : List ℕ) (c : ℕ) (t post : List ℕ) where
  decode_long_lem :
      Small (length t)
      → Small (length pre + 1 + length (to_bytes (length t)) + length t)
      → decode_long
          (pre ++ (c ∷ (to_bytes (length t) ++ (t ++ post))))
          (length pre)
          (length (to_bytes (length t)))
        ≡ ok (bytes t, length pre + 1 + length (to_bytes (length t)) + length t)
  unfolding decode_long
  decode_long_lem small fits = ground (
    arith,
    length_behind pre c (to_bytes (length t)) t post,
    decode_length_lem pre c (length t) (t ++ post) small,
    slice_behind pre c (to_bytes (length t)) t post (length pre + 1 + length (to_bytes (length t)))
        (add64 (length pre + 1 + length (to_bytes (length t))) (length t)),
  )

-- What `Decode` returns for a byte string: a single low byte comes back as a `byte`.
unfoldable pub decoded_bytes : List ℕ → Item
decoded_bytes (b ∷ []) = if leb b 0x7f then byte b else bytes (b ∷ [])
decoded_bytes t = bytes t

decoded_bytes_indirect : (t : List ℕ) → is_direct t ≡ false → decoded_bytes t ≡ bytes t
unfolding decoded_bytes is_direct
decoded_bytes_indirect [] h = refl
decoded_bytes_indirect (b ∷ []) h = rw h
decoded_bytes_indirect (b ∷ c ∷ t) h = refl

pub decode_fuel_at :
    (fuel : ℕ) (pre : List ℕ) (c : ℕ) (rest : List ℕ) (n : ℕ)
    → length pre < n
    → decode_fuel (suc fuel) (pre ++ (c ∷ rest)) n (length pre)
      ≡ decode_char (decode_loop fuel (pre ++ (c ∷ rest)) n) (pre ++ (c ∷ rest)) (length pre) c
unfolding decode_fuel byte_within
decode_fuel_at fuel pre c rest n h =
    rw (lt→ltb (length pre) n h, get_elem?-append pre c rest (length pre) refl)

-- At any fuel but none, `Decode` reads `v` off `printed` wherever that stands in the first `n` bytes.
abbrev pub Reads : ℕ → List ℕ → Item → Type 0
Reads fuel printed v =
    (pre post : List ℕ) (n : ℕ)
    → Small (length pre + length printed)
    → length pre + length printed ≤ n
    → decode_fuel fuel (pre ++ (printed ++ post)) n (length pre)
      ≡ ok (v, length pre + length printed)

direct-Reads : (fuel b : ℕ) → b ≤ 0x7f → Reads (suc fuel) (b ∷ []) (byte b)
direct-Reads fuel b h pre post n fits le =
    decode_fuel_at fuel pre b post n (omega arith)
    ∙ unfold decode_char in ground (arith, length-append pre (b ∷ post))

short-Reads :
    (fuel : ℕ) (t : List ℕ)
    → length t < 56
    → Reads (suc fuel) ((length t + 0x80) % 256 ∷ t) (bytes t)
short-Reads fuel t h pre post n fits le =
    decode_fuel_at fuel pre ((length t + 0x80) % 256) (t ++ post) n (omega arith)
    ∙ unfold decode_char in
      rw (prefix)
        (ground (arith, decode_short_lem pre ((length t + 0x80) % 256) t post (omega arith)))
  where
    prefix : (length t + 0x80) % 256 - 0x80 ≡ length t
    prefix = omega arith

long-Reads :
    (fuel : ℕ) (t : List ℕ)
    → 56 ≤ length t
    → Small (length t)
    → Reads
        (suc fuel)
        ((length (to_bytes (length t)) + 0xb7) % 256 ∷ (to_bytes (length t) ++ t))
        (bytes t)
long-Reads fuel t h small pre post n fits le = rw (append_assoc (to_bytes (length t)) t post) (
    decode_fuel_at fuel pre first (to_bytes (length t) ++ (t ++ post)) n (omega arith)
    ∙ unfold decode_char in
      rw prefix (
        ground (
          arith,
          length-append (to_bytes (length t)) t,
          length-to_bytes_pos (length t),
          length-to_bytes 8 (length t),
          decode_long_lem pre first t post small
              (omega (arith, length-append (to_bytes (length t)) t)),
        )))
  where
    first : ℕ
    first = (length (to_bytes (length t)) + 0xb7) % 256

    prefix : first - 0xb7 ≡ length (to_bytes (length t))
    prefix = omega (arith, length-to_bytes 8 (length t) (omega arith))

direct_bytes-Reads :
    (fuel : ℕ) (t : List ℕ) → is_direct t ≡ true → Reads (suc fuel) t (decoded_bytes t)
unfolding is_direct decoded_bytes
direct_bytes-Reads fuel [] h = absurd (cc)
direct_bytes-Reads fuel (b ∷ []) h = rw h (direct-Reads fuel b (leb→le b 0x7f h))
direct_bytes-Reads fuel (b ∷ c ∷ t) h = absurd (cc)

-- A byte string reads back.
pub encode_bytes-Reads :
    (fuel : ℕ) (t : List ℕ) → Small (length t) → Reads (suc fuel) (encode_bytes t) (decoded_bytes t)
unfolding encode_bytes
encode_bytes-Reads fuel t small = elim (Bool-cases (is_direct t)) [
  | inl direct ↦ rw direct (direct_bytes-Reads fuel t direct)
  | inr other ↦ elim (Bool-cases (ltb (length t) 56)) [
    | inl short ↦
        rw (other, short, decoded_bytes_indirect t other)
          (short-Reads fuel t (ltb→lt (length t) 56 short))
    | inr long ↦
        rw (other, long, decoded_bytes_indirect t other) (long-Reads fuel t (ground arith) small)
  ]
]
