-- ===== src/Ethchain/Chain/NewRuns.antt =====
-- The theorems on new blocks at concrete inputs.
use eth_go.Ethchain.Block.{create_block}
use eth_go.Ethutil.Rlp.RoundTrip.{decoded, decoded_bytes}
use eth_go.Common.Int.{◌*ℤ◌}
use eth_go.Common.{
  ◌<◌, ◌-◌, ◌/◌, ◌+◌, ◌≤◌, ◌≡◌, refl, arith, [], ◌∷◌, length, false, Result, ok, same_bytes,
}
use eth_go.Common.Int.{pos, ◌+ℤ◌}
use eth_go.Ethutil.Bytes.{to_bytes}
use eth_go.Ethutil.Rlp.{encode, encode_bytes, is_direct, write_slice_header}
use eth_go.Ethutil.Value.{encode_value}
use eth_go.Ethchain.Block.{
  Block, hash, rlp_encode, block_value, rlp_receipts, rlp_uncles, calc_gas_limit,
}
use eth_go.Ethchain.Block.Headers.{loaded_root, normal_header}
use eth_go.Ethchain.Block.RoundTrip.{normal_block}
use eth_go.Ethchain.Chain.{add, new_block, write_block_info, block_after}
use eth_go.Ethchain.Chain.Walks.{Linked}
use eth_go.Ethchain.Chain.Children.{new_block-difficulty, Linked-new_block}
use eth_go.Ethchain.Block.Samples.{toy}
use eth_go.Ethchain.Chain.Samples.{size, genesis, second, genesis_size, Linked-second, loaded}

-- A block that is made 3 seconds after its parent.
abbrev third_of : Result Block → Block
third_of (ok block) = block
third_of _ = genesis

abbrev third : Block
third = third_of (new_block toy loaded (pos 80) (1 ∷ []))

third_made : new_block toy loaded (pos 80) (1 ∷ []) ≡ ok third
unfolding new_block block_after normal_block normal_header calc_gas_limit ◌+ℤ◌
third_made = refl

new_block-difficulty_example :
    (80 < 77 + 42 → third.head.difficulty ≡ pos (131072 + 131072 / 1024))
    × (77 + 42 ≤ 80 → third.head.difficulty ≡ pos (131072 - 131072 / 1024))
unfolding normal_block normal_header decoded decoded_bytes
new_block-difficulty_example =
    new_block-difficulty toy loaded (normal_block second) (pos 80) 1 131072 77 80 (1 ∷ []) third
      refl third_made refl refl loaded_root refl (omega arith) refl (omega arith)

third-length : length (rlp_encode third) ≡ 95
unfolding rlp_encode block_value rlp_receipts rlp_uncles encode_value encode encode_bytes is_direct
    write_slice_header to_bytes hash new_block block_after calc_gas_limit normal_block normal_header
    add write_block_info ◌+ℤ◌ create_block decoded decoded_bytes ◌*ℤ◌
third-length = refl

third_differs :
    (same_bytes (hash toy third) (hash toy second) ≡ false)
    × (same_bytes (hash toy third) (hash toy genesis) ≡ false)
unfolding rlp_encode block_value rlp_receipts rlp_uncles encode_value encode encode_bytes is_direct
    write_slice_header to_bytes hash new_block block_after calc_gas_limit normal_block normal_header
    add write_block_info same_bytes ◌+ℤ◌ create_block decoded decoded_bytes ◌*ℤ◌
third_differs = (refl, refl)

second_size : length (hash toy second) ≡ 32
unfolding hash
second_size = refl

Linked-new_block_example :
    Linked toy
      (add toy loaded third).db
      2
      (hash toy third)
      (hash toy third ∷ hash toy second ∷ hash toy genesis ∷ [])
unfolding normal_block normal_header decoded decoded_bytes add hash
Linked-new_block_example =
    Linked-new_block toy loaded (normal_block second) (pos 80) 1 (1 ∷ []) third
      (hash toy second ∷ hash toy genesis ∷ []) size refl refl loaded_root (omega arith)
      Linked-second third_made
      ((second_size, third_differs.0), ((genesis_size, third_differs.1), tt))
      (omega (arith, third-length))
