-- ===== src/Ethutil/Rlp/Runs.antt =====
-- Runs of the codec on the data of ethutil/rlp_test.go, and its theorems at concrete inputs.
use eth_go.Common.{
  ℕ, ◌+◌, ◌≡◌, ◌≢◌, refl, arith, List, [], ◌∷◌, ◌++◌, length, ok, slice as slice_of,
}
use eth_go.Common.Int.{pos}
use eth_go.Ethutil.Item.{Item, num, int, slice, bytes, str, byte, cons, nil}
use eth_go.Ethutil.Bytes.{to_bytes}
use eth_go.Ethutil.Rlp.{
  is_direct, encode_bytes, write_slice_header, encode, decode, decode_fuel, byte_within,
  decode_char, decode_short, decode_list,
}
use eth_go.Ethutil.Rlp.Total.{Advances, decode-Advances}
use eth_go.Ethutil.Rlp.RoundTrip.{decoded, decode-encode}
use eth_go.Ethutil.Rlp.Canonical.{encode-decode}

abbrev dog : List ℕ
dog = 100 ∷ 111 ∷ 103 ∷ []

abbrev god : List ℕ
god = 103 ∷ 111 ∷ 100 ∷ []

abbrev pair : Item
pair = slice (cons (str dog) (cons (str god) nil))

abbrev encoded_pair : List ℕ
encoded_pair = 0xc8 ∷ 0x83 ∷ 100 ∷ 111 ∷ 103 ∷ 0x83 ∷ 103 ∷ 111 ∷ 100 ∷ []

encode-dog : encode (str dog) ≡ 0x83 ∷ dog
unfolding encode encode_bytes is_direct
encode-dog = refl

encode-pair : encode pair ≡ encoded_pair
unfolding encode encode_bytes is_direct write_slice_header
encode-pair = refl

encode_1024 : encode (num int (pos 1024)) ≡ 0x82 ∷ 0x04 ∷ 0x00 ∷ []
unfolding encode encode_bytes is_direct to_bytes
encode_1024 = refl

decode-pair : decode [] encoded_pair 0 ≡ ok (slice (cons (bytes dog) (cons (bytes god) nil)), 9)
unfolding decode decode_fuel byte_within decode_char decode_list decode_short slice_of
decode-pair = refl

decode_one : decode [] (1 ∷ []) 0 ≡ ok (byte 1, 1)
unfolding decode decode_fuel byte_within decode_char
decode_one = refl

-- The string is longer than the data, but not than its capacity: the position is behind the data.
decode_behind : decode (1 ∷ 2 ∷ 3 ∷ []) (0x83 ∷ []) 0 ≡ ok (bytes (1 ∷ 2 ∷ 3 ∷ []), 4)
unfolding decode decode_fuel byte_within decode_char decode_short slice_of
decode_behind = refl

decode-Advances_example : Advances (0 + 1) 4 (decode (1 ∷ 2 ∷ 3 ∷ []) (0x83 ∷ []) 0)
decode-Advances_example = decode-Advances (1 ∷ 2 ∷ 3 ∷ []) (0x83 ∷ []) 0 (omega arith)

decode-encode_example :
    decode (5 ∷ 6 ∷ []) (7 ∷ (encode pair ++ (9 ∷ []))) 1
    ≡ ok (decoded pair, 1 + length (encode pair))
decode-encode_example =
    decode-encode pair (7 ∷ []) (9 ∷ []) (5 ∷ 6 ∷ []) (tt, (tt, tt))
      (unfold encode encode_bytes is_direct write_slice_header in omega arith)

encode-decode_example :
    (v : Item) × (decode (5 ∷ 6 ∷ []) (encode pair) 0 ≡ ok (v, length (encode pair)))
    × (encode v ≡ encode pair)
encode-decode_example =
    encode-decode pair (5 ∷ 6 ∷ []) (tt, (tt, tt)) (dog_stable, (god_stable, tt))
      (unfold encode encode_bytes is_direct write_slice_header in omega arith)
  where
    dog_stable : dog ≢ 0 ∷ []
    dog_stable e = cc

    god_stable : god ≢ 0 ∷ []
    god_stable e = cc
