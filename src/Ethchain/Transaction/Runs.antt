-- ===== src/Ethchain/Transaction/Runs.antt =====
-- Transactions at concrete inputs, and the theorems on them.
use eth_go.Ethutil.Bytes.{from_bytes, to_bytes}
use eth_go.Common.{◌≡◌, refl, arith, [], ◌∷◌, ◌++◌, length, ok, panic}
use eth_go.Common.Int.{pos}
use eth_go.Ethutil.Value.{append_items, encode_value}
use eth_go.Ethutil.Rlp.{encode, encode_bytes, is_direct, write_slice_header}
use eth_go.Ethchain.Transaction.{
  rlp_data, Transaction, Crypto, new_transaction_message, rlp_encode, new_transaction_from_bytes,
  sender,
}
use eth_go.Ethchain.Transaction.RoundTrip.{
  normal, new_transaction_from_bytes-rlp_encode, sender-normal,
}

-- A hash of twenty bytes behind twelve, and a curve on which every signature recovers to a full key.
abbrev toy : Crypto
toy = record {
  sha3 = λ b. 0 ∷ 0 ∷ 0 ∷ 0 ∷ 0 ∷ 0 ∷ 0 ∷ 0 ∷ 0 ∷ 0 ∷ 0 ∷ 0 ∷ b;
  sign = λ h k. h ++ k;
  recover = λ h s. 4 ∷ s;
}

abbrev message : Transaction
message = record (new_transaction_message (1 ∷ 2 ∷ []) (pos 5) (pos 600) (pos 2) (9 ∷ [])) {
  nonce = 3;
  v = 27;
  r = 0 ∷ 7 ∷ [];
  s = 8 ∷ [];
}

no_key : sender (record toy { recover = λ h s. [] }) message ≡ panic
unfolding sender
no_key = refl

fourteen_bytes : length (rlp_encode message) ≡ 14
unfolding rlp_encode rlp_data append_items encode_value encode encode_bytes is_direct
    write_slice_header to_bytes new_transaction_message from_bytes
fourteen_bytes = refl

new_transaction_from_bytes-rlp_encode_example :
    new_transaction_from_bytes (rlp_encode message) ≡ ok (normal message)
new_transaction_from_bytes-rlp_encode_example =
    new_transaction_from_bytes-rlp_encode message (omega arith) (omega arith)
      (omega (arith, fourteen_bytes))

sender-normal_example : sender toy (normal message) ≡ sender toy message
sender-normal_example =
    sender-normal toy message (omega arith, (omega arith, tt)) (omega arith, tt) (omega arith)
      (omega arith)
