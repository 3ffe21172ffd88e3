-- ===== src/Ethchain/Chain.antt =====
-- ethchain/block_chain.go: the chain of blocks, its store and the choice between two chains. The
-- database is a map; `Delete` on it does not fail. A nil block, and a number that is not set, panic
-- where they are used.
pub mod Stored
pub mod Walks
pub mod Heads
pub mod Choice
pub mod Children
pub mod Samples
mod NewRuns
mod Runs
use eth_go.Common.{
  ℕ, zero, suc, ◌+◌, ◌*◌, ◌/◌, ◌%◌, ◌^◌, List, [], ◌∷◌, ◌++◌, Bool, true, false, not, ◌==◌, ◌&&◌,
  if◌then◌else◌, replicate, Result, ok, panic, out_of_fuel, ◌>>=◌, or_panic, Option, none, some,
  same_bytes, lookup, insert, delete,
}
use eth_go.Common.Int.{ℤ, pos, negsuc, nat_abs, ltb_ℤ, ◌+ℤ◌, ◌*ℤ◌}
use eth_go.Ethutil.Bytes.{to_bytes}
use eth_go.Ethutil.Item.{Item, nil_value}
use eth_go.Ethutil.Value.{signed64, to_uint64}
use eth_go.Ethchain.Transaction.{Crypto}
use eth_go.Ethchain.Block.{
  Header, Block, BlockInfo, hash, rlp_encode, new_block_from_bytes, info_encode, info_decode,
  create_block, calc_gas_limit, div_by,
}

abbrev pub Db : Type 0
Db = List (List ℕ × List ℕ)

pub record BlockChain : Type 0 where
  pub genesis_block : Block
  pub td : ℤ
  pub last_block_number : ℕ
  pub current_block : Option Block
  pub last_block_hash : List ℕ
  pub db : Db

abbrev pub zero_hash256 : List ℕ
zero_hash256 = replicate 32 0

-- "Info", "LastBlock" and "LastKnownTotalDifficulty"
abbrev pub info_key : List ℕ → List ℕ
info_key h = h ++ (73 ∷ 110 ∷ 102 ∷ 111 ∷ [])

abbrev pub last_block_key : List ℕ
last_block_key = 76 ∷ 97 ∷ 115 ∷ 116 ∷ 66 ∷ 108 ∷ 111 ∷ 99 ∷ 107 ∷ []

abbrev pub last_known_td_key : List ℕ
last_known_td_key =
    76 ∷ 97 ∷ 115 ∷ 116 ∷ 75 ∷ 110 ∷ 111 ∷ 119 ∷ 110 ∷ 84 ∷ 111 ∷ 116 ∷ 97 ∷ 108 ∷ 68 ∷ 105 ∷ 102
    ∷ 102 ∷ 105 ∷ 99 ∷ 117 ∷ 108 ∷ 116 ∷ 121 ∷ []

-- The bytes under a key; there are none where it is missing.
abbrev pub found : Option (List ℕ) → List ℕ
found none = []
found (some data') = data'

abbrev pub is_nothing : List ℕ → Bool
is_nothing [] = true
is_nothing (b ∷ bs) = false

unfoldable pub has_block : Db → List ℕ → Bool
has_block db h = not (is_nothing (found (lookup db h)))

abbrev pub decode_block : List ℕ → Result (Option Block)
decode_block [] = ok none
decode_block (b ∷ bs) = do block ← new_block_from_bytes (b ∷ bs); ok (some block)

unfoldable pub get_block : Db → List ℕ → Result (Option Block)
get_block db h = decode_block (found (lookup db h))

unfoldable pub block_info_by_hash : Db → List ℕ → Result BlockInfo
block_info_by_hash db h = info_decode (found (lookup db (info_key h)))

unfoldable pub uncle_difficulties : List Header → ℤ
uncle_difficulties [] = pos 0
uncle_difficulties (u ∷ us) = u.difficulty +ℤ uncle_difficulties us

unfoldable pub calculate_block_td : Block → ℤ
unfolding uncle_difficulties
calculate_block_td block = uncle_difficulties block.uncles +ℤ block.head.difficulty

unfoldable pub set_total_difficulty : BlockChain → ℤ → BlockChain
set_total_difficulty bc td = record bc {
  db = insert bc.db last_known_td_key (to_bytes (nat_abs td));
  td = td;
}

-- The difficulty of a new block: more where it comes within 42 seconds of its parent.
unfoldable pub next_difficulty : ℤ → ℤ → ℤ → ℤ
next_difficulty difficulty last_block_time time =
    let mul =
      if ltb_ℤ time (signed64 (to_uint64 (last_block_time +ℤ pos 42))) then pos 1 else negsuc 0 in
    (div_by difficulty 1024 *ℤ mul) +ℤ difficulty

-- The loop of `HasBlockWithPrevHash`, on fuel.
unfoldable pub has_block_with_prev_hash : ℕ → Db → Option Block → List ℕ → Result Bool
has_block_with_prev_hash fuel db none h = ok false
has_block_with_prev_hash zero db (some block) h = out_of_fuel
has_block_with_prev_hash (suc fuel) db (some block) h =
    let rest = do
      parent ← get_block db block.head.prev_hash
      has_block_with_prev_hash fuel db parent h
    in if same_bytes h block.head.prev_hash then ok true else rest

-- `block.Number.Uint64()` of a block that is there.
abbrev pub number_of : Block → Result ℕ
number_of block = do number ← or_panic block.head.number; ok (nat_abs number % 2 ^ 64)

abbrev pub checked : ℕ → Block → ℕ → Option Block
checked num block n = if (n == 0) && not (num == 0) then none else some block

-- The loop of `GetBlockByNumber`, on fuel; it does not look whether there is a block.
unfoldable pub block_by_number : ℕ → Db → Option Block → ℕ → Result (Option Block)
block_by_number zero db block num = out_of_fuel
block_by_number (suc fuel) db none num = panic
block_by_number (suc fuel) db (some block) num = do
  n ← number_of block
  let rest = do parent ← get_block db block.head.prev_hash; block_by_number fuel db parent num
  if n == num then ok (checked num block n) else rest

module _ (crypto : Crypto) where
  -- `now` is the time of the clock.
  unfoldable pub first_block : ℤ → List ℕ → Block
  first_block now coinbase =
      let block = create_block crypto now nil_value zero_hash256 coinbase (pos (2 ^ 32)) [] [] in
      record block { head = record block.head { min_gas_price = pos 10000000000000 } }

  unfoldable pub block_after : BlockChain → Block → ℤ → List ℕ → Result Block
  unfolding next_difficulty
  block_after bc current now coinbase = do
    let block =
        create_block crypto now current.head.root bc.last_block_hash coinbase (pos (2 ^ 32)) [] []
    let difficulty = next_difficulty current.head.difficulty current.head.time now
    number ← or_panic current.head.number
    let head = record block.head {
      min_gas_price = pos 10000000000000;
      difficulty = difficulty;
      number = some (number +ℤ pos 1);
    }
    gas_limit ← calc_gas_limit head current.head
    ok (record block { head = record head { gas_limit = gas_limit } })

  unfoldable pub new_block : BlockChain → ℤ → List ℕ → Result Block
  unfolding first_block block_after
  new_block bc now coinbase = elim bc.current_block [
    | none ↦ ok (first_block now coinbase)
    | some current ↦ block_after bc current now coinbase
  ]

  unfoldable pub write_block_info : BlockChain → Block → BlockChain
  write_block_info bc block =
      let number = (bc.last_block_number + 1) % 2 ^ 64 in
      let h = hash crypto block in
      record bc {
        last_block_number = number;
        db =
            insert bc.db (info_key h)
              (info_encode (record { number = number; hash = h; parent = block.head.prev_hash }));
      }

  unfoldable pub add : BlockChain → Block → BlockChain
  unfolding write_block_info
  add bc block =
      let noted = write_block_info bc block in
      record noted {
        current_block = some block;
        last_block_hash = hash crypto block;
        db =
            insert (insert noted.db (hash crypto block) (rlp_encode block)) last_block_key
              (rlp_encode block);
      }

  -- At most `max` hashes, from a block back.
  unfoldable pub hashes_from : ℕ → Db → Option Block → Result (List (List ℕ))
  hashes_from zero db block = ok []
  hashes_from (suc max) db none = panic
  hashes_from (suc max) db (some block) = do
    number ← or_panic block.head.number
    let rest = do parent ← get_block db block.head.prev_hash; hashes_from max db parent
    tail ← if ltb_ℤ (pos 0) number then rest else ok []
    ok (hash crypto block ∷ tail)

  abbrev pub hashes_of_found : ℕ → Db → Option Block → Result (List (List ℕ))
  hashes_of_found max db none = ok []
  hashes_of_found max db (some block) = hashes_from max db (some block)

  unfoldable pub get_chain_hashes_from_hash : Db → List ℕ → ℕ → Result (List (List ℕ))
  unfolding hashes_from
  get_chain_hashes_from_hash db h max = do block ← get_block db h; hashes_of_found max db block

  -- The loop of `GetChain`: `blocks` is what is there, the oldest first.
  unfoldable pub chain_from : ℕ → Db → List ℕ → Option Block → List Block → Result (List Block)
  chain_from zero db gen_hash block blocks = ok blocks
  chain_from (suc amount) db gen_hash none blocks = ok blocks
  chain_from (suc amount) db gen_hash (some block) blocks =
      let rest = do
        parent ← get_block db block.head.prev_hash
        chain_from amount db gen_hash parent (block ∷ blocks)
      in if same_bytes gen_hash (hash crypto block) then ok (block ∷ blocks) else rest

  unfoldable pub get_chain : BlockChain → List ℕ → ℕ → Result (List Block)
  unfolding chain_from
  get_chain bc h amount = do
    block ← get_block bc.db h
    chain_from amount bc.db (hash crypto bc.genesis_block) block []

  -- The difficulty of the blocks up to the common one.
  unfoldable pub incoming_difficulty : List Block → List ℕ → ℤ
  incoming_difficulty [] common = pos 0
  incoming_difficulty (block ∷ blocks) common =
      let rest = calculate_block_td block +ℤ incoming_difficulty blocks common in
      if same_bytes (hash crypto block) common then pos 0 else rest

  -- The loop over the blocks of the chain, on fuel; the genesis block does not count.
  unfoldable pub current_difficulty : ℕ → Db → Option Block → List ℕ → Result ℤ
  current_difficulty fuel db none common = ok (pos 0)
  current_difficulty zero db (some block) common = out_of_fuel
  current_difficulty (suc fuel) db (some block) common =
      let rest = do
        parent ← get_block db block.head.prev_hash
        more ← current_difficulty fuel db parent common
        ok (elim parent [ none ↦ pos 0 | some b ↦ calculate_block_td block +ℤ more ])
      in if same_bytes (hash crypto block) common then ok (pos 0) else rest

  -- The new head of the chain. `nil` panics by its hash.
  unfoldable pub head_at : BlockChain → List ℕ → Result BlockChain
  head_at bc h =
      let genesis = hash crypto bc.genesis_block in
      let rest = do
        found ← get_block bc.db h
        return_to ← or_panic found
        number ← number_of return_to
        ok (record bc {
          current_block = some return_to;
          last_block_hash = hash crypto return_to;
          last_block_number = number;
        })
      in if same_bytes h genesis
        then ok (record bc {
          current_block = some bc.genesis_block;
          last_block_hash = genesis;
          last_block_number = 1;
        })
        else rest

  -- The loop that deletes the blocks behind starts at a block that is nil, and does nothing.
  unfoldable pub reset_till_block_hash : BlockChain → List ℕ → Result BlockChain
  unfolding head_at
  reset_till_block_hash bc h = do
    moved ← head_at bc h
    last_block ← or_panic bc.current_block
    ok (record moved { db = delete moved.db (hash crypto last_block) })

  -- Whether the chain is kept, and the chain.
  unfoldable pub find_canonical_chain :
      ℕ → BlockChain → List Block → List ℕ → Result (Bool × BlockChain)
  unfolding incoming_difficulty current_difficulty reset_till_block_hash
  find_canonical_chain fuel bc blocks common = do
    current ← current_difficulty fuel bc.db bc.current_block common
    let change = do moved ← reset_till_block_hash bc common; ok (false, moved)
    if ltb_ℤ current (incoming_difficulty blocks common) then change else ok (true, bc)
