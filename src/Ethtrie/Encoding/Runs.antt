-- ===== src/Ethtrie/Encoding/Runs.antt =====
-- Runs of the key encodings on the data of ethtrie/encoding_test.go, and their theorems at inputs.
use eth_go.Common.{
  ℕ, ◌≡◌, refl, arith, List, [], ◌∷◌, ◌++◌, true, ok, panic, ◌>>=◌, slice as slice_of,
}
use eth_go.Ethtrie.Encoding.{
  compact_encode, encode_flags, pack_nibbles, compact_decode, decode_flags, compact_hex_decode,
}
use eth_go.Ethtrie.Encoding.RoundTrip.{compact_decode-compact_encode}

abbrev odd_key : List ℕ
odd_key = 15 ∷ 1 ∷ 12 ∷ 11 ∷ 8 ∷ []

encode_odd : compact_encode (1 ∷ 2 ∷ 3 ∷ 4 ∷ 5 ∷ []) ≡ ok (0x11 ∷ 0x23 ∷ 0x45 ∷ [])
unfolding compact_encode encode_flags pack_nibbles slice_of
encode_odd = refl

encode_terminated :
    compact_encode (0 ∷ 15 ∷ 1 ∷ 12 ∷ 11 ∷ 8 ∷ 16 ∷ []) ≡ ok (0x20 ∷ 0x0f ∷ 0x1c ∷ 0xb8 ∷ [])
unfolding compact_encode encode_flags pack_nibbles slice_of
encode_terminated = refl

decode_empty : compact_decode [] ≡ panic
unfolding compact_decode decode_flags compact_hex_decode slice_of
decode_empty = refl

compact_decode-compact_encode_example :
    (compact_encode (odd_key ++ (16 ∷ [])) >>= compact_decode) ≡ ok (odd_key ++ (16 ∷ []))
compact_decode-compact_encode_example =
    compact_decode-compact_encode odd_key true (omega arith) (omega arith)
