-- ===== src/Ethutil/Bytes/Runs.antt =====
-- Runs of the byte helpers, and their theorems at concrete inputs.
use eth_go.Common.{◌^◌, ◌≡◌, refl, arith, [], ◌∷◌}
use eth_go.Ethutil.Bytes.{
  to_bytes, from_bytes, left_pad_bytes, read_var_int, binary_read, binary_length,
}
use eth_go.Ethutil.Bytes.Numbers.{to_bytes-from_bytes}

bytes_of_1024 : to_bytes 1024 ≡ 4 ∷ 0 ∷ []
unfolding to_bytes
bytes_of_1024 = refl

padded : left_pad_bytes (7 ∷ []) 3 ≡ 0 ∷ 0 ∷ 7 ∷ []
unfolding left_pad_bytes
padded = refl

-- Nine bytes do not fit: the first eight are read.
nine_bytes : read_var_int (1 ∷ 0 ∷ 0 ∷ 0 ∷ 0 ∷ 0 ∷ 0 ∷ 0 ∷ 9 ∷ []) ≡ 2 ^ 56
unfolding read_var_int left_pad_bytes binary_read from_bytes
nine_bytes = refl

two_bytes_long : binary_length 256 ≡ 2
unfolding binary_length
two_bytes_long = refl

to_bytes-from_bytes_example : to_bytes (from_bytes (4 ∷ 0 ∷ [])) ≡ 4 ∷ 0 ∷ []
to_bytes-from_bytes_example = to_bytes-from_bytes 4 (0 ∷ []) (omega arith) (omega arith)
