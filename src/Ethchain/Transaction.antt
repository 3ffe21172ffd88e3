-- ===== src/Ethchain/Transaction.antt =====
-- ethchain/transaction.go: transactions, their RLP form, and whom they are from.
pub mod RoundTrip
mod Runs
use eth_go.Common.{
  ℕ, ◌+◌, ◌-◌, ◌%◌, ◌<◌, List, [], ◌∷◌, ◌++◌, Bool, true, false, ltb, ◌==◌, if◌then◌else◌, length,
  Result, ok, panic, ◌>>=◌, index, slice as slice_of, Option, none, some, replicate, same_bytes,
}
use eth_go.Common.Int.{ℤ, pos, ◌+ℤ◌, ◌*ℤ◌}
use eth_go.Ethutil.Bytes.{to_bytes, from_bytes, left_pad_bytes}
use eth_go.Ethutil.Item.{Item, Items, num, uint64, byte, big, bytes, slice, items_of}
use eth_go.Ethutil.Rlp.{encode}
use eth_go.Ethutil.Value.{
  get, uint_of, big_int, bytes_of, append_items, new_value_from_bytes, encode_value,
}

abbrev pub contract_addr : List ℕ
contract_addr = replicate 20 0

unfoldable pub is_contract_addr : List ℕ → Bool
is_contract_addr addr = same_bytes addr contract_addr

pub record Transaction : Type 0 where
  pub nonce : ℕ
  pub recipient : List ℕ
  pub value : ℤ
  pub gas : ℤ
  pub gas_price : ℤ
  pub data' : List ℕ
  pub v : ℕ
  pub r : List ℕ
  pub s : List ℕ
  pub contract_creation : Bool

-- `Sha3Bin`, and `Sign` and `RecoverPubkey` of the curve with the error dropped: hash and key, hash
-- and signature.
pub record Crypto : Type 0 where
  pub sha3 : List ℕ → List ℕ
  pub sign : List ℕ → List ℕ → List ℕ
  pub recover : List ℕ → List ℕ → List ℕ

unfoldable pub new_contract_creation_tx : ℤ → ℤ → ℤ → List ℕ → Transaction
new_contract_creation_tx value gas gas_price script = record {
  nonce = 0;
  recipient = contract_addr;
  value = value;
  gas = gas;
  gas_price = gas_price;
  data' = script;
  v = 0;
  r = [];
  s = [];
  contract_creation = true;
}

unfoldable pub new_transaction_message : List ℕ → ℤ → ℤ → ℤ → List ℕ → Transaction
new_transaction_message to value gas gas_price data' = record {
  nonce = 0;
  recipient = to;
  value = value;
  gas = gas;
  gas_price = gas_price;
  data' = data';
  v = 0;
  r = [];
  s = [];
  contract_creation = false;
}

unfoldable pub gas_value : Transaction → ℤ
gas_value tx = tx.gas *ℤ tx.gas_price

unfoldable pub total_value : Transaction → ℤ
unfolding gas_value
total_value tx = gas_value tx +ℤ tx.value

-- The fields that are hashed.
abbrev pub hashed_fields : Transaction → Items
hashed_fields tx = items_of (
    num uint64 (pos tx.nonce)
    ∷ big tx.gas_price
    ∷ big tx.gas
    ∷ bytes tx.recipient
    ∷ big tx.value
    ∷ bytes tx.data'
    ∷ [])

-- `new(big.Int).SetBytes(b).Bytes()`
abbrev pub stripped : List ℕ → List ℕ
stripped b = to_bytes (from_bytes b)

unfoldable pub rlp_data : Transaction → Item
rlp_data tx = slice (
    append_items (hashed_fields tx)
      (items_of (byte tx.v ∷ bytes (stripped tx.r) ∷ bytes (stripped tx.s) ∷ [])))

unfoldable pub rlp_encode : Transaction → List ℕ
rlp_encode tx = encode_value (rlp_data tx)

-- A nil `*big.Int` makes the first use of the number panic; it panics here at once.
abbrev pub big_at : Item → ℕ → Result ℤ
big_at decoder i = do z ← big_int (get decoder (pos i)); elim z [ none ↦ panic | some z ↦ ok z ]

unfoldable pub rlp_value_decode : Transaction → Item → Result Transaction
rlp_value_decode tx decoder = do
  nonce ← uint_of (get decoder (pos 0))
  gas_price ← big_at decoder 1
  gas ← big_at decoder 2
  recipient ← bytes_of (get decoder (pos 3))
  value ← big_at decoder 4
  data' ← bytes_of (get decoder (pos 5))
  v ← uint_of (get decoder (pos 6))
  r ← bytes_of (get decoder (pos 7))
  s ← bytes_of (get decoder (pos 8))
  ok (record {
    nonce = nonce;
    recipient = recipient;
    value = value;
    gas = gas;
    gas_price = gas_price;
    data' = data';
    v = v % 256;
    r = r;
    s = s;
    contract_creation = if is_contract_addr recipient then true else tx.contract_creation;
  })

abbrev pub zero_tx : Transaction
zero_tx = record {
  nonce = 0;
  recipient = [];
  value = pos 0;
  gas = pos 0;
  gas_price = pos 0;
  data' = [];
  v = 0;
  r = [];
  s = [];
  contract_creation = false;
}

unfoldable pub new_transaction_from_value : Item → Result Transaction
unfolding rlp_value_decode
new_transaction_from_value val = rlp_value_decode zero_tx val

unfoldable pub new_transaction_from_bytes : List ℕ → Result Transaction
unfolding rlp_value_decode
new_transaction_from_bytes data' = do val ← new_value_from_bytes data'; rlp_value_decode zero_tx val

module _ (crypto : Crypto) where
  unfoldable pub hash : Transaction → List ℕ
  hash tx = crypto.sha3 (encode_value (slice (hashed_fields tx)))

  unfoldable pub signature : Transaction → List ℕ → List ℕ
  unfolding hash
  signature tx key = crypto.sign (hash tx) key

  -- `tx.v-27` is a byte.
  unfoldable pub public_key : Transaction → List ℕ
  unfolding hash
  public_key tx =
      crypto.recover (hash tx)
        (left_pad_bytes tx.r 32 ++ left_pad_bytes tx.s 32 ++ ((tx.v + 229) % 256 ∷ []))

  -- The last twenty bytes of a hash; a key that is not in full form gives nil.
  unfoldable pub address_of_key : List ℕ → Result (List ℕ)
  address_of_key pubkey = do
    form ← index pubkey 0
    rest ← slice_of pubkey 1 (length pubkey)
    let h = crypto.sha3 rest
    if form == 4 then slice_of h 12 (length h) else ok []

  unfoldable pub sender : Transaction → Result (List ℕ)
  unfolding public_key address_of_key
  sender tx = address_of_key (public_key tx)

  -- The three parts of the signature; a shorter one makes the slices panic.
  unfoldable pub sign : Transaction → List ℕ → Result Transaction
  unfolding signature
  sign tx key = do
    let sig = signature tx key
    r ← slice_of sig 0 32
    s ← slice_of sig 32 64
    v ← index sig 64
    ok (record tx { r = r; s = s; v = (v + 27) % 256 })

  unfoldable pub creation_address : Transaction → Result (List ℕ)
  unfolding sender
  creation_address tx = do
    from ← sender tx
    let h =
        crypto.sha3 (encode_value (slice (items_of (bytes from ∷ num uint64 (pos tx.nonce) ∷ []))))
    slice_of h 12 (length h)

pub record Receipt : Type 0 where
  pub tx : Transaction
  pub post_state : List ℕ
  pub cumulative_gas_used : ℤ

unfoldable pub receipt_of_value : Item → Result Receipt
unfolding new_transaction_from_value
receipt_of_value decoder = do
  tx ← new_transaction_from_value (get decoder (pos 0))
  post ← bytes_of (get decoder (pos 1))
  used ← big_at decoder 2
  ok (record { tx = tx; post_state = post; cumulative_gas_used = used })

unfoldable pub receipt_data : Receipt → Item
unfolding rlp_data
receipt_data r =
    slice (items_of (rlp_data r.tx ∷ bytes r.post_state ∷ big r.cumulative_gas_used ∷ []))
