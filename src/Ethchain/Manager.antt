-- ===== src/Ethchain/Manager.antt =====
-- ethchain/state_manager.go: the rules for a block, the total difficulty, the reward of a block and
-- the bloom filter of its messages. The proof of work is an interface of the source, and a parameter.
pub mod Filters
mod Runs
use eth_go.Common.{
  ℕ, zero, suc, ◌+◌, List, [], ◌∷◌, Bool, true, false, if◌then◌else◌, Result, ok, panic, ◌>>=◌,
  or_panic, Option, none, some, same_bytes,
}
use eth_go.Common.Int.{ℤ, pos, ltb_ℤ, ◌+ℤ◌, ◌-ℤ◌}
use eth_go.Ethutil.Value.{signed64, to_uint64}
use eth_go.Ethchain.Transaction.{Crypto}
use eth_go.Ethchain.Bloom.{BloomFilter, new_bloom_filter, set}
use eth_go.Ethchain.Block.{Header, Block, hash_no_nonce}
use eth_go.Ethchain.Chain.{BlockChain, get_block, uncle_difficulties, set_total_difficulty}
use eth_go.Ethvm.Vm.{Message}

pub data Fault : Type 0 where
  uncle_mismatch earlier_time invalid_nonce : Fault

abbrev pub uncles_match : List Header → List ℕ → Bool
uncles_match [] h = true
uncles_match (u ∷ us) h =
    let rest = uncles_match us h in if same_bytes u.prev_hash h then rest else false

-- The checks on a block and its parent; the difference of the times is an int64.
unfoldable pub check_block : Crypto → (List ℕ → ℤ → List ℕ → Bool) → Block → Block → Option Fault
check_block crypto verify block previous =
    let diff = signed64 (to_uint64 (block.head.time -ℤ previous.head.time)) in
    let fits = verify (hash_no_nonce crypto block.head) block.head.difficulty block.head.nonce in
    if uncles_match block.uncles previous.head.prev_hash
    then (if ltb_ℤ diff (pos 0)
        then some earlier_time
        else if fits
        then none
        else some invalid_nonce)
    else some uncle_mismatch

-- A parent that is missing panics.
unfoldable pub validate_block :
    Crypto → (List ℕ → ℤ → List ℕ → Bool) → BlockChain → Block → Result (Option Fault)
unfolding check_block
validate_block crypto verify bc block = do
  found ← get_block bc.db block.head.prev_hash
  previous ← or_panic found
  ok (check_block crypto verify block previous)

-- The new total difficulty is on top of that of the chain, whatever the parent of the block.
unfoldable pub calculate_td : BlockChain → Block → Bool × BlockChain
calculate_td bc block =
    let td = (bc.td +ℤ uncle_difficulties block.uncles) +ℤ block.head.difficulty in
    if ltb_ℤ bc.td td then (true, set_total_difficulty bc td) else (false, bc)

abbrev pub block_reward : ℤ
block_reward = pos 1500000000000000000

abbrev pub uncle_reward : ℤ
uncle_reward = pos 1125000000000000000

abbrev pub uncle_inclusion_reward : ℤ
uncle_inclusion_reward = pos 187500000000000000

abbrev pub inclusion_rewards : ℕ → ℤ
inclusion_rewards zero = pos 0
inclusion_rewards (suc n) = inclusion_rewards n +ℤ uncle_inclusion_reward

unfoldable pub calculate_block_reward : ℕ → ℤ
calculate_block_reward uncle_length = inclusion_rewards uncle_length +ℤ block_reward

-- The loop of `createBloomFilter`.
unfoldable pub set_messages : BloomFilter → List Message → Result BloomFilter
set_messages f [] = ok f
set_messages f (msg ∷ msgs) = do
  with_to ← set msg.to f
  with_both ← set msg.from with_to
  set_messages with_both msgs

unfoldable pub create_bloom_filter : List Message → Result BloomFilter
unfolding set_messages
create_bloom_filter messages = set_messages (new_bloom_filter none) messages
