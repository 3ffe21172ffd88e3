-- ===== src/Ethutil/Value/Runs.antt =====
-- Runs of the value methods, and their theorems at concrete inputs.
use eth_go.Common.{ℕ, ◌≡◌, refl, arith, List, [], ◌∷◌, ok}
use eth_go.Common.Int.{pos}
use eth_go.Ethutil.Bytes.{to_bytes}
use eth_go.Ethutil.Item.{Items, num, uint64, slice, str, byte, cons, nil}
use eth_go.Ethutil.Rlp.{encode, encode_bytes, is_direct, write_slice_header}
use eth_go.Ethutil.Rlp.RoundTrip.{decoded, decoded_bytes}
use eth_go.Ethutil.Value.{str_of, new_value_from_bytes, string_of_byte}
use eth_go.Ethutil.Value.Reads.{new_value_from_bytes-encode, str_of-decoded_bytes}

abbrev dog : List ℕ
dog = 100 ∷ 111 ∷ 103 ∷ []

abbrev dog_and_one : Items
dog_and_one = cons (str dog) (cons (num uint64 (pos 1)) nil)

-- A byte above 0x7f is no single byte as a string.
high_byte : str_of (byte 0xff) ≡ 0xc3 ∷ 0xbf ∷ []
unfolding str_of string_of_byte
high_byte = refl

new_value_from_bytes-encode_example :
    new_value_from_bytes (encode (slice dog_and_one)) ≡ ok (decoded (slice dog_and_one))
new_value_from_bytes-encode_example =
    new_value_from_bytes-encode (slice dog_and_one) (tt, (tt, tt))
      (unfold encode encode_bytes is_direct write_slice_header to_bytes in omega arith)

str_of-decoded_bytes_example : str_of (decoded_bytes dog) ≡ dog
str_of-decoded_bytes_example = str_of-decoded_bytes dog
