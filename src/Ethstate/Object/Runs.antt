-- ===== src/Ethstate/Object/Runs.antt =====
-- Objects at concrete inputs, and the theorems on them.
use eth_go.Ethstate.Object.{get_addr}
use eth_go.Ethutil.Value.{new_value_from_slice}
use eth_go.Ethutil.Rlp.{
  byte_within, decode, decode_char, decode_fuel, encode_bytes, is_direct, write_slice_header,
}
use eth_go.Ethutil.Bytes.{to_bytes}
use eth_go.Common.{◌≡◌, ◌≢◌, refl, arith, [], ◌∷◌, ◌==◌, if◌then◌else◌, ok, lookup}
use eth_go.Common.Int.{pos}
use eth_go.Ethutil.Item.{nil_big, bytes, nil_value, str, num, int, byte}
use eth_go.Ethutil.Value.{new_value}
use eth_go.Ethutil.Rlp.{encode}
use eth_go.Ethutil.Rlp.RoundTrip.{decoded}
use eth_go.Ethstate.Trie.{Store}
use eth_go.Ethstate.MapTrie.{MapTrie, map_trie}
use eth_go.Ethstate.Object.{
  StateObject, new_state_object, get_storage, set_storage, rlp_encode, rlp_decode, get_instr,
}
use eth_go.Ethstate.Object.Storage.{value_read, get_storage-set_storage}
use eth_go.Ethstate.Object.RoundTrip.{rlp_decode-rlp_encode}

abbrev miner : StateObject MapTrie
miner = record (new_state_object map_trie (1 ∷ [])) {
  balance = pos 100;
  gas_pool = pos 50;
  code = 0x60 ∷ 1 ∷ [];
}

abbrev db : Store
db = record { sha3 = λ k. 7 ∷ []; read = λ k. 0x60 ∷ 1 ∷ [] }

-- A missing place is nil, and a stored one is found under the negated key.
missing_place : value_read (get_storage map_trie miner (pos 5)) ≡ ok nil_value
unfolding get_storage lookup new_state_object get_addr new_value_from_slice
missing_place = refl

second_instr : get_instr miner (pos 1) ≡ ok (byte 1)
unfolding get_instr new_value_from_slice byte_within decode decode_fuel decode_char
second_instr = refl

past_the_code : get_instr miner (pos 2) ≡ ok (num int (pos 0))
unfolding get_instr
past_the_code = refl

get_storage-set_storage_example :
    (o' : StateObject MapTrie) × (set_storage miner (pos 5) (bytes (9 ∷ [])) ≡ ok o')
    × (value_read (get_storage map_trie o' (pos 6)) ≡ (
        if 5 == 6
        then ok (new_value (bytes (9 ∷ [])))
        else value_read (get_storage map_trie miner (pos 6))))
get_storage-set_storage_example =
    get_storage-set_storage map_trie miner (pos 5) (bytes (9 ∷ [])) (pos 6) not_nil
  where
    not_nil : bytes (9 ∷ []) ≢ nil_big
    not_nil e = cc

rlp_decode-rlp_encode_example :
    rlp_decode map_trie db miner (rlp_encode map_trie db miner)
    ≡ ok (record miner {
      nonce = 0;
      balance = pos 100;
      state = map_trie.at_root (decoded (str []));
      storage = [];
      gas_pool = pos 0;
      code_hash = 7 ∷ [];
      code = 0x60 ∷ 1 ∷ [];
    })
unfolding new_state_object encode write_slice_header encode_bytes is_direct to_bytes
rlp_decode-rlp_encode_example =
    rlp_decode-rlp_encode map_trie db miner miner (omega arith) tt
      (unfold rlp_encode in omega arith) refl
