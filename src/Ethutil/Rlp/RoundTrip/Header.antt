-- ===== src/Ethutil/Rlp/RoundTrip/Header.antt =====
-- The header of a list, read back by the two list cases of `Decode`.
use eth_go.Common.{
  ℕ, suc, ◌+◌, ◌-◌, ◌%◌, ◌≤◌, ◌<◌, ◌≡◌, ◌∙◌, arith, List, [], ◌∷◌, ◌++◌, length, length-append, ok,
  ltb, ltb→lt, Bool-cases, inl, inr,
}
use eth_go.Ethutil.Bytes.{to_bytes}
use eth_go.Ethutil.Bytes.Numbers.{length-to_bytes, length-to_bytes_pos}
use eth_go.Ethutil.Item.{Items, slice}
use eth_go.Ethutil.Rlp.{
  write_slice_header, decode_list, decode_long_list, decode_char, decode_fuel, decode_loop,
}
use eth_go.Ethutil.Rlp.RoundTrip.Parts.{Small, decode_length_lem, decode_fuel_at}

-- The loop over `body`, which stands behind `head`, reads `xs` and stops behind `body`.
abbrev pub LoopReads : ℕ → ℕ → List ℕ → List ℕ → List ℕ → List ℕ → Items → Type 0
LoopReads fuel n pre head body post xs =
    decode_loop fuel (pre ++ (head ++ (body ++ post))) n (length pre + length head) 0 (length body)
    ≡ ok (xs, length pre + length head + length body)

module _ (fuel n : ℕ) (pre body post : List ℕ) (xs : Items) (inside : length pre < n) where
  short_header_lem :
      (c : ℕ)
      → c ≡ length body + 0xc0
      → length body < 56
      → Small (length pre + 1 + length body)
      → LoopReads fuel n pre (c ∷ []) body post xs
      → decode_fuel (suc fuel) (pre ++ (c ∷ (body ++ post))) n (length pre)
        ≡ ok (slice xs, length pre + 1 + length body)
  short_header_lem c e h fits loop =
      decode_fuel_at fuel pre c (body ++ post) n inside
      ∙ unfold decode_char decode_list in
        rw prefix (ground (arith, length-append pre (c ∷ (body ++ post)), loop))
    where
      prefix : c - 0xc0 ≡ length body
      prefix = omega arith

  long_header_lem :
      (c : ℕ)
      → c ≡ length (to_bytes (length body)) + 0xf7
      → 56 ≤ length body
      → Small (length body)
      → Small (length pre + 1 + length (to_bytes (length body)) + length body)
      → LoopReads fuel n pre (c ∷ to_bytes (length body)) body post xs
      → decode_fuel
          (suc fuel)
          (pre ++ (c ∷ (to_bytes (length body) ++ (body ++ post))))
          n
          (length pre)
        ≡ ok (slice xs, length pre + 1 + length (to_bytes (length body)) + length body)
  long_header_lem c e h small fits loop =
      decode_fuel_at fuel pre c (to_bytes (length body) ++ (body ++ post)) n inside
      ∙ unfold decode_char decode_long_list in
        rw prefix (
          ground (
            arith,
            length-to_bytes_pos (length body),
            length-to_bytes 8 (length body),
            decode_length_lem pre c (length body) (body ++ post) small (omega arith),
            loop,
          ))
    where
      prefix : c - 0xf7 ≡ length (to_bytes (length body))
      prefix = omega arith

  -- A list reads back, if its loop does.
  pub header-Reads :
      Small (length body)
      → Small (length pre + length (write_slice_header (length body)) + length body)
      → LoopReads fuel n pre (write_slice_header (length body)) body post xs
      → decode_fuel
          (suc fuel)
          (pre ++ (write_slice_header (length body) ++ (body ++ post)))
          n
          (length pre)
        ≡ ok (slice xs, length pre + length (write_slice_header (length body)) + length body)
  unfolding write_slice_header
  header-Reads small fits loop = elim (Bool-cases (ltb (length body) 56)) [
    | inl short ↦
        let h = ltb→lt (length body) 56 short in
        rw short (
          short_header_lem ((length body + 0xc0) % 256) (omega arith) h (rw short at fits)
            (rw short at loop))
    | inr long ↦
        let k = length-to_bytes 8 (length body) (omega arith) in
        rw long (
          long_header_lem ((length (to_bytes (length body)) + 0xf7) % 256) (omega arith)
            (ground arith) small (omega (arith, rw long at fits)) (rw long at loop)
          ∙ ground arith)
  ]
