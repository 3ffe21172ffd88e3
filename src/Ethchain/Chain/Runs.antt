-- ===== src/Ethchain/Chain/Runs.antt =====
-- The theorems on the chain at concrete inputs.
use eth_go.Common.{
  ◌≡◌, refl, ◌∙◌, arith, [], ◌∷◌, take, true, not, ok, none, some, same_bytes_refl, delete,
}
use eth_go.Common.Int.{ℤ, pos, ltb_ℤ, ◌+ℤ◌}
use eth_go.Ethchain.Block.{Block, hash}
use eth_go.Ethchain.Block.Headers.{normal_header}
use eth_go.Ethchain.Block.RoundTrip.{normal_block, hash-normal_block}
use eth_go.Ethchain.Chain.{
  BlockChain, get_block, add, get_chain_hashes_from_hash, block_by_number, find_canonical_chain,
  reset_till_block_hash, incoming_difficulty, calculate_block_td, current_difficulty, head_at,
  write_block_info,
}
use eth_go.Ethchain.Chain.Stored.{get_block-add, get_block-add_other}
use eth_go.Ethchain.Chain.Walks.{get_chain_hashes_from_hash-Linked, block_by_number-Linked}
use eth_go.Ethchain.Chain.Heads.{
  HoldsHead, find_canonical_chain-HoldsHead, add-HoldsHead, reset_till_block_hash-get_block,
}
use eth_go.Ethchain.Chain.Choice.{Way, arrived, onward, find_canonical_chain-Way}
use eth_go.Ethchain.Block.Samples.{toy}
use eth_go.Ethchain.Chain.Samples.{
  size, genesis, genesis_sound, second, second_sound, genesis-length, differ, genesis_size,
  no_chain, one, two, found_genesis, Linked-second, found_second, loaded,
}

get_block-add_example : get_block one.db (hash toy genesis) ≡ ok (some (normal_block genesis))
get_block-add_example =
    get_block-add toy no_chain genesis size genesis_sound (omega (arith, genesis-length))

get_chain_hashes_from_hash-Linked_example :
    get_chain_hashes_from_hash toy two.db (hash toy second) 5
    ≡ ok (take 5 (hash toy second ∷ hash toy genesis ∷ []))
get_chain_hashes_from_hash-Linked_example =
    get_chain_hashes_from_hash-Linked toy two.db 1 (hash toy second) _ 5 Linked-second

block_by_number-Linked_example :
    (c : Block) × (block_by_number 2 two.db (some (normal_block second)) 0 ≡ ok (some c))
    × (c.head.number ≡ some (pos 0))
block_by_number-Linked_example =
    block_by_number-Linked toy two.db 1 (hash toy second) _ 0 (normal_block second) Linked-second
      found_second (omega arith) (omega arith)

found_first : get_block two.db (hash toy genesis) ≡ ok (some (normal_block genesis))
found_first =
    get_block-add_other toy one second (hash toy genesis) size genesis_size differ ∙ found_genesis

abbrev back : ℤ
back = calculate_block_td (normal_block second) +ℤ pos 0

way : Way toy loaded.db (hash toy genesis) 1 back (hash toy second)
unfolding normal_block normal_header
way =
    onward 0 (pos 0) (hash toy second) (normal_block second) found_second
      (rw (hash-normal_block toy second second_sound) differ)
      (arrived (hash toy genesis) (normal_block genesis) found_first
        (hash-normal_block toy genesis genesis_sound))

find_canonical_chain-Way_example :
    (bc2 : BlockChain) × (find_canonical_chain toy 2 loaded
        (second ∷ second ∷ [])
        (hash toy genesis)
      ≡ ok (
        not (ltb_ℤ back (incoming_difficulty toy (second ∷ second ∷ []) (hash toy genesis))),
        bc2,
      ))
unfolding normal_block
find_canonical_chain-Way_example =
    find_canonical_chain-Way toy loaded (hash toy genesis) 1 back (hash toy second)
      (normal_block second) (normal_block genesis) (pos 0) (second ∷ second ∷ []) way refl
      found_second found_first genesis_number
  where
    genesis_number : (normal_block genesis).head.number ≡ some (pos 0)
    genesis_number = refl

nothing_comes : find_canonical_chain toy 1 two [] (hash toy second) ≡ ok (true, two)
unfolding find_canonical_chain current_difficulty incoming_difficulty add
nothing_comes = rw (same_bytes_refl (hash toy second)) refl

find_canonical_chain-HoldsHead_example : HoldsHead toy two × (true ≡ true → two ≡ two)
find_canonical_chain-HoldsHead_example =
    find_canonical_chain-HoldsHead toy 1 two two true [] (hash toy second)
      (add-HoldsHead toy one second) nothing_comes

-- A reset to the head: the block that the chain stands on is no longer stored.
abbrev after_reset : BlockChain
after_reset = record one {
  current_block = some genesis;
  last_block_hash = hash toy genesis;
  last_block_number = 1;
  db = delete one.db (hash toy genesis);
}

reset_to_head : reset_till_block_hash toy one (hash toy genesis) ≡ ok after_reset
unfolding reset_till_block_hash head_at add write_block_info
reset_to_head = rw (same_bytes_refl (hash toy genesis)) refl

reset_till_block_hash-get_block_example :
    HoldsHead toy after_reset
    × ((last_block : Block)
        → one.current_block ≡ some last_block
        → get_block after_reset.db (hash toy last_block) ≡ ok none)
reset_till_block_hash-get_block_example =
    reset_till_block_hash-get_block toy one after_reset (hash toy genesis) reset_to_head
