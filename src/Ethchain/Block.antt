-- ===== src/Ethchain/Block.antt =====
-- ethchain/block.go: blocks, their RLP form, their hashes and the limit of their gas. The state of a
-- block is the root of its trie here; its objects are in Ethstate.Accounts. An uncle is a block of
-- which only the header is read, and is modelled by its header.
pub mod Loops
pub mod Headers
pub mod RoundTrip
pub mod GasLimit
pub mod Info
pub mod Samples
mod Runs
use eth_go.Common.{
  ℕ, zero, suc, ◌+◌, ◌*◌, ◌/◌, ◌%◌, ◌^◌, List, [], ◌∷◌, ◌++◌, map, Bool, true, false, if◌then◌else◌,
  length, Result, ok, panic, ◌>>=◌, Option, none, some, same_bytes,
}
use eth_go.Common.Int.{ℤ, pos, negsuc, nat_abs, ltb_ℤ, ◌+ℤ◌, ◌*ℤ◌}
use eth_go.Ethutil.Item.{
  Item, Items, num, int, int64, uint64, big, nil_big, bytes, str, slice, items_of,
}
use eth_go.Ethutil.Value.{
  get, uint_of, big_int, bytes_of, str_of, len, is_nil, signed64, new_value_from_bytes,
  encode_value,
}
use eth_go.Ethstate.Trie.{TrieOps}
use eth_go.Ethchain.Transaction.{
  Transaction, Crypto, Receipt, receipt_of_value, receipt_data, big_at, hash as tx_hash,
}

-- `none` is the nil that `CreateBlock` leaves for the number.
pub record Header : Type 0 where
  pub prev_hash : List ℕ
  pub uncle_sha : List ℕ
  pub coinbase : List ℕ
  pub root : Item
  pub tx_sha : List ℕ
  pub difficulty : ℤ
  pub number : Option ℤ
  pub min_gas_price : ℤ
  pub gas_limit : ℤ
  pub gas_used : ℤ
  pub time : ℤ
  pub extra : List ℕ
  pub nonce : List ℕ

pub record Block : Type 0 where
  pub head : Header
  pub uncles : List Header
  pub transactions : List Transaction
  pub receipts : List Receipt

abbrev pub big_or_nil : Option ℤ → Item
big_or_nil none = nil_big
big_or_nil (some z) = big z

abbrev pub header_items : Header → Items
header_items b = items_of (
    bytes b.prev_hash
    ∷ bytes b.uncle_sha
    ∷ bytes b.coinbase
    ∷ b.root
    ∷ bytes b.tx_sha
    ∷ big b.difficulty
    ∷ big_or_nil b.number
    ∷ big b.min_gas_price
    ∷ big b.gas_limit
    ∷ big b.gas_used
    ∷ num int64 b.time
    ∷ str b.extra
    ∷ bytes b.nonce
    ∷ [])

-- `header`
abbrev pub header : Header → Item
header b = slice (header_items b)

unfoldable pub rlp_receipts : Block → Item
rlp_receipts block = slice (items_of (map receipt_data block.receipts))

unfoldable pub rlp_uncles : List Header → Item
rlp_uncles uncles = slice (items_of (map header uncles))

-- `Value`
unfoldable pub block_value : Block → Item
unfolding rlp_receipts rlp_uncles
block_value block =
    slice (items_of (header block.head ∷ rlp_receipts block ∷ rlp_uncles block.uncles ∷ []))

unfoldable pub rlp_encode : Block → List ℕ
unfolding block_value
rlp_encode block = encode_value (block_value block)

-- The fields of a header, as `RlpValueDecode` and `NewUncleBlockFromValue` read them.
unfoldable pub new_uncle_block_from_value : Item → Result Header
new_uncle_block_from_value v = do
  prev_hash ← bytes_of (get v (pos 0))
  uncle_sha ← bytes_of (get v (pos 1))
  coinbase ← bytes_of (get v (pos 2))
  tx_sha ← bytes_of (get v (pos 4))
  difficulty ← big_at v 5
  number ← big_int (get v (pos 6))
  min_gas_price ← big_at v 7
  gas_limit ← big_at v 8
  gas_used ← big_at v 9
  time ← big_at v 10
  nonce ← bytes_of (get v (pos 12))
  ok (record {
    prev_hash = prev_hash;
    uncle_sha = uncle_sha;
    coinbase = coinbase;
    root = get v (pos 3);
    tx_sha = tx_sha;
    difficulty = difficulty;
    number = number;
    min_gas_price = min_gas_price;
    gas_limit = gas_limit;
    gas_used = gas_used;
    time = signed64 (nat_abs time % 2 ^ 64);
    extra = str_of (get v (pos 11));
    nonce = nonce;
  })

-- The rest of a loop over `v.Len()` items, `i` of which are done.
unfoldable pub read_from : {A : Type 0} → (Item → Result A) → Item → ℕ → ℕ → Result (List A)
read_from read v zero i = ok []
read_from read v (suc more) i = do
  x ← read (get v (pos i))
  xs ← read_from read v more (suc i)
  ok (x ∷ xs)

-- A list that is not there is left as it was, which is empty.
unfoldable pub read_all : {A : Type 0} → (Item → Result A) → Item → Result (List A)
unfolding read_from
read_all read v = if is_nil v then ok [] else do n ← len v; read_from read v n 0

unfoldable pub rlp_value_decode : Item → Result Block
unfolding new_uncle_block_from_value read_all
rlp_value_decode decoder = do
  head ← new_uncle_block_from_value (get decoder (pos 0))
  receipts ← read_all receipt_of_value (get decoder (pos 1))
  uncles ← read_all new_uncle_block_from_value (get decoder (pos 2))
  ok (record {
    head = head;
    uncles = uncles;
    transactions = map (λ r. r.tx) receipts;
    receipts = receipts;
  })

unfoldable pub new_block_from_bytes : List ℕ → Result Block
unfolding rlp_value_decode
new_block_from_bytes raw = do v ← new_value_from_bytes raw; rlp_value_decode v

pub record BlockInfo : Type 0 where
  pub number : ℕ
  pub hash : List ℕ
  pub parent : List ℕ

unfoldable pub info_decode : List ℕ → Result BlockInfo
info_decode data' = do
  decoder ← new_value_from_bytes data'
  number ← uint_of (get decoder (pos 0))
  hash ← bytes_of (get decoder (pos 1))
  parent ← bytes_of (get decoder (pos 2))
  ok (record { number = number; hash = hash; parent = parent })

unfoldable pub info_encode : BlockInfo → List ℕ
info_encode bi =
    encode_value
      (slice (items_of (num uint64 (pos bi.number) ∷ bytes bi.hash ∷ bytes bi.parent ∷ [])))

-- `Div` of a big integer by a positive number rounds down.
abbrev pub div_by : ℤ → ℕ → ℤ
div_by (pos n) d = pos (n / d)
div_by (negsuc n) d = negsuc (n / d)

-- `BigMax`
abbrev pub max_int : ℤ → ℤ → ℤ
max_int x y = if ltb_ℤ y x then x else y

-- Six fifths of the gas used are a fraction in lowest terms, whose numerator is divided by its
-- denominator.
unfoldable pub calc_gas_limit : Header → Header → Result ℤ
calc_gas_limit block parent =
    let previous = pos 1023 *ℤ parent.gas_limit in
    let current = div_by (pos 6 *ℤ parent.gas_used) 5 in
    let limit = max_int (pos 125000) (div_by (previous +ℤ current) 1024) in
    elim block.number [
      | none ↦ panic
      | some (pos zero) ↦ ok (pos (10 ^ 6))
      | some (pos (suc n)) ↦ ok limit
      | some (negsuc n) ↦ ok limit
    ]

module _ (crypto : Crypto) where
  unfoldable pub hash : Block → List ℕ
  unfolding rlp_encode
  hash block = crypto.sha3 (rlp_encode block)

  unfoldable pub hash_no_nonce : Header → List ℕ
  hash_no_nonce b = crypto.sha3 (
      encode_value (
        slice (
          items_of (
            bytes b.prev_hash
            ∷ bytes b.uncle_sha
            ∷ bytes b.coinbase
            ∷ b.root
            ∷ bytes b.tx_sha
            ∷ big b.difficulty
            ∷ big_or_nil b.number
            ∷ big b.min_gas_price
            ∷ big b.gas_limit
            ∷ big b.gas_used
            ∷ num int64 b.time
            ∷ str b.extra
            ∷ []))))

  unfoldable pub set_uncles : Block → List Header → Block
  unfolding rlp_uncles
  set_uncles block uncles = record block {
    uncles = uncles;
    head = record block.head { uncle_sha = crypto.sha3 (encode_value (rlp_uncles uncles)) };
  }

  -- `now` is the time of the clock. The uncles are set to none, and with them their hash.
  unfoldable pub create_block : ℤ → Item → List ℕ → List ℕ → ℤ → List ℕ → List ℕ → Block
  unfolding set_uncles
  create_block now root prev_hash base difficulty nonce extra =
      set_uncles
        (record {
          head = record {
            prev_hash = prev_hash;
            uncle_sha = crypto.sha3 (encode_value (slice (items_of [])));
            coinbase = base;
            root = root;
            tx_sha = [];
            difficulty = difficulty;
            number = none;
            min_gas_price = pos 0;
            gas_limit = pos 0;
            gas_used = pos 0;
            time = now;
            extra = extra;
            nonce = nonce;
          };
          uncles = [];
          transactions = [];
          receipts = [];
        })
        []

  unfoldable pub get_transaction : List Receipt → List ℕ → Option Transaction
  get_transaction [] h = none
  get_transaction (r ∷ rs) h =
      let rest = get_transaction rs h in
      if same_bytes (tx_hash crypto r.tx) h then some r.tx else rest

unfoldable pub set_receipts : Block → List Receipt → List Transaction → Block
set_receipts block receipts txs = record block { receipts = receipts; transactions = txs }
