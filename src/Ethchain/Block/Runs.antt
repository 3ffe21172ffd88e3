-- ===== src/Ethchain/Block/Runs.antt =====
-- Blocks at concrete inputs, and the theorems on them.
use eth_go.Common.{ℕ, ◌≤◌, ◌*◌, ◌+◌, ◌≡◌, refl, arith, [], ◌∷◌, length, ok, some}
use eth_go.Common.Int.{pos}
use eth_go.Ethutil.Bytes.{from_bytes, to_bytes}
use eth_go.Ethutil.Item.{bytes}
use eth_go.Ethutil.Rlp.{encode, encode_bytes, is_direct, write_slice_header}
use eth_go.Ethutil.Value.{append_items, encode_value}
use eth_go.Ethchain.Transaction.{Receipt, new_transaction_message, rlp_data, receipt_data}
use eth_go.Ethchain.Block.{
  Block, BlockInfo, rlp_encode, block_value, rlp_receipts, rlp_uncles, new_block_from_bytes, hash,
  info_encode, info_decode, calc_gas_limit,
}
use eth_go.Ethchain.Block.Samples.{toy, uncle}
use eth_go.Ethchain.Block.Headers.{empty_root, hash_root}
use eth_go.Ethchain.Block.RoundTrip.{
  SoundBlock, normal_block, new_block_from_bytes-rlp_encode, hash-normal_block,
}
use eth_go.Ethchain.Block.GasLimit.{calc_gas_limit_bounds}
use eth_go.Ethchain.Block.Info.{info_decode-info_encode}

abbrev receipt : Receipt
receipt = record {
  tx = new_transaction_message (1 ∷ 2 ∷ []) (pos 5) (pos 600) (pos 2) (9 ∷ []);
  post_state = 3 ∷ 4 ∷ [];
  cumulative_gas_used = pos 21;
}

abbrev block : Block
block = record {
  head = record uncle { root = bytes (7 ∷ 8 ∷ 9 ∷ []); number = some (pos 4) };
  uncles = uncle ∷ [];
  transactions = [];
  receipts = receipt ∷ [];
}

abbrev block_sound : SoundBlock block
unfolding new_transaction_message
block_sound = record {
  head_sound = record {
    n = pos 4;
    has_number = refl;
    time_fits = omega arith;
    is_root = hash_root 7 8 (9 ∷ []);
  };
  uncles_sound =
      (record { n = pos 3; has_number = refl; time_fits = omega arith; is_root = empty_root }, tt);
  receipts_sound = ((omega arith, omega arith), tt);
}

block-length : length (rlp_encode block) ≡ 84
unfolding rlp_encode block_value rlp_receipts rlp_uncles receipt_data rlp_data append_items
    encode_value encode encode_bytes is_direct write_slice_header to_bytes new_transaction_message
    from_bytes
block-length = refl

new_block_from_bytes-rlp_encode_example :
    new_block_from_bytes (rlp_encode block) ≡ ok (normal_block block)
new_block_from_bytes-rlp_encode_example =
    new_block_from_bytes-rlp_encode block block_sound (omega (arith, block-length))

hash-normal_block_example : hash toy (normal_block block) ≡ hash toy block
hash-normal_block_example = hash-normal_block toy block block_sound

calc_gas_limit_bounds_example :
    (l : ℕ) × (calc_gas_limit block.head uncle ≡ ok (pos l))
    × (125000 ≤ l)
    × (1023 * 1000000 ≤ 1024 * l + 1023)
    × (5120 * l ≤ 5121 * 1000000)
calc_gas_limit_bounds_example =
    calc_gas_limit_bounds block.head uncle 3 1000000 500000 refl refl refl (omega arith)
      (omega arith)

abbrev info : BlockInfo
info = record { number = 4; hash = 1 ∷ 2 ∷ []; parent = 3 ∷ [] }

info-length : length (info_encode info) ≡ 6
unfolding info_encode encode_value encode encode_bytes is_direct write_slice_header to_bytes
info-length = refl

info_decode-info_encode_example : info_decode (info_encode info) ≡ ok info
info_decode-info_encode_example =
    info_decode-info_encode info (omega arith) (omega (arith, info-length))
