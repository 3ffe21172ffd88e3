-- ===== src/Ethstate/Object.antt =====
-- ethstate/state_object.go: an account or a contract. `T` is the trie of its storage, which the
-- constructors set, so that `State` is never nil. The big integers are values: no two fields share
-- one, except where a caller passes one in.
pub mod Storage
pub mod Amounts
pub mod RoundTrip
mod Runs
use eth_go.Common.{
  ℕ, ◌+◌, ◌-◌, ◌%◌, ◌^◌, ◌<◌, List, [], ◌∷◌, Bool, true, false, not, ◌==◌, if◌then◌else◌, length,
  Result, ok, panic, ◌>>=◌, index, Option, none, some, lookup, insert, ltb,
}
use eth_go.Common.Int.{ℤ, pos, negsuc, nat_abs, ltb_ℤ, ◌+ℤ◌, ◌-ℤ◌, ◌*ℤ◌}
use eth_go.Ethutil.Bytes.{address, to_bytes, left_pad_bytes}
use eth_go.Ethutil.Item.{Item, Items, num, uint64, int, big, bytes, slice, items_of, nil_big}
use eth_go.Ethutil.Rlp.{encode}
use eth_go.Ethutil.Value.{
  get, uint_of, int_of, big_int, bytes_of, new_value, copy_value, new_value_from_bytes, is_nil,
  encode_value, len,
}
use eth_go.Ethstate.Trie.{TrieOps, Store}

-- The values that are cached under their padded keys.
abbrev pub Cached : Type 0
Cached = List (List ℕ × Item)

pub record StateObject (T : Type 0) : Type 0 where
  pub addr : List ℕ
  pub balance : ℤ
  pub code_hash : List ℕ
  pub nonce : ℕ
  pub state : T
  pub code : List ℕ
  pub init_code : List ℕ
  pub storage : Cached
  pub gas_pool : ℤ
  pub remove : Bool

abbrev pub storage_key : ℤ → List ℕ
storage_key key = left_pad_bytes (to_bytes (nat_abs key)) 32

unfoldable pub cache_value : {T : Type 0} → StateObject T → List ℕ → Item → StateObject T
cache_value o k v = if is_nil v then o else record o { storage = insert o.storage k v }

module _ {T : Type 0} (ops : TrieOps T) where
  unfoldable pub new_state_object : List ℕ → StateObject T
  new_state_object a = record {
    addr = address a;
    balance = pos 0;
    code_hash = [];
    nonce = 0;
    state = ops.empty;
    code = [];
    init_code = [];
    storage = [];
    gas_pool = pos 0;
    remove = false;
  }

  unfoldable pub new_contract : List ℕ → ℤ → List ℕ → StateObject T
  unfolding new_state_object
  new_contract a z root = record (new_state_object a) {
    balance = z;
    state = ops.at_root (bytes root);
  }

  -- A nil `*big.Int` in the second place would make the first use of the balance panic; it panics
  -- here at once.
  unfoldable pub rlp_decode : Store → StateObject T → List ℕ → Result (StateObject T)
  rlp_decode db o data' = do
    decoder ← new_value_from_bytes data'
    n ← uint_of (get decoder (pos 0))
    z ← big_int (get decoder (pos 1))
    hash ← bytes_of (get decoder (pos 3))
    let decoded : ℤ → StateObject T = λ z. record o {
      nonce = n;
      balance = z;
      state = ops.at_root (get decoder (pos 2));
      storage = [];
      gas_pool = pos 0;
      code_hash = hash;
      code = db.read hash;
    }
    elim z [ none ↦ panic | some z ↦ ok (decoded z) ]

  -- `&StateObject{address: address}` has no trie before it is decoded.
  unfoldable pub new_state_object_from_bytes : Store → List ℕ → List ℕ → Result (StateObject T)
  unfolding rlp_decode new_state_object
  new_state_object_from_bytes db a data' =
      rlp_decode db (record (new_state_object a) { addr = a }) data'

  abbrev pub rlp_fields : Store → StateObject T → Items
  rlp_fields db o =
      items_of
        (num uint64 (pos o.nonce) ∷ big o.balance ∷ ops.root o.state ∷ bytes (db.sha3 o.code) ∷ [])

  unfoldable pub rlp_encode : Store → StateObject T → List ℕ
  rlp_encode db o = encode (slice (rlp_fields db o))

  unfoldable pub get_addr : StateObject T → List ℕ → Result Item
  get_addr o a = new_value_from_bytes (ops.get o.state a)

  unfoldable pub set_addr : StateObject T → List ℕ → Item → StateObject T
  set_addr o a v = record o { state = ops.update o.state a (encode_value (new_value v)) }

  -- `getStorage` behind the look at the map: a value that the trie has is cached.
  unfoldable pub read_storage : StateObject T → List ℕ → Option Item → Result (Item × StateObject T)
  read_storage o k (some v) = ok (v, o)
  read_storage o k none = do v ← get_addr o k; ok (v, cache_value o k v)

  unfoldable pub get_storage : StateObject T → ℤ → Result (Item × StateObject T)
  unfolding read_storage
  get_storage o key = let k = storage_key key in read_storage o k (lookup o.storage k)

  -- One round of the loop of `Sync`.
  unfoldable pub sync_entry : StateObject T → List ℕ → Item → Result (StateObject T)
  unfolding set_addr
  sync_entry o k v = do
    n ← len v
    let removed : StateObject T = record o { state = ops.remove o.state k }
    ok (if n == 0 then removed else set_addr o k v)

  -- The entries of the map, in the order of the list.
  unfoldable pub sync_entries : Cached → StateObject T → Result (StateObject T)
  unfolding sync_entry
  sync_entries [] o = ok o
  sync_entries ((k, v) ∷ m) o = do o' ← sync_entry o k v; sync_entries m o'

  unfoldable pub sync : StateObject T → Result (StateObject T)
  unfolding sync_entries
  sync o = do
    o' ← sync_entries o.storage o
    ok elim (ops.rebuilt o'.state) [ none ↦ o' | some t ↦ record o' { state = t } ]

unfoldable pub instr_at : List ℕ → ℤ → Result Item
instr_at code (pos i) =
    if ltb i (length code)
    then (do b ← index code i; new_value_from_bytes (b ∷ []))
    else ok (num int (pos 0))
instr_at code (negsuc i) = panic

module _ {T : Type 0} where
  unfoldable pub mark_for_deletion : StateObject T → StateObject T
  mark_for_deletion o = record o { remove = true }

  unfoldable pub set_storage : StateObject T → ℤ → Item → Result (StateObject T)
  set_storage o key v = do
    copied ← copy_value v
    ok (record o { storage = insert o.storage (storage_key key) copied })

  unfoldable pub set_balance : StateObject T → ℤ → StateObject T
  set_balance o z = record o { balance = z }

  unfoldable pub add_amount : StateObject T → ℤ → StateObject T
  unfolding set_balance
  add_amount o amount = set_balance o (o.balance +ℤ amount)

  unfoldable pub sub_amount : StateObject T → ℤ → StateObject T
  unfolding set_balance
  sub_amount o amount = set_balance o (o.balance -ℤ amount)

  -- `none` is the error.
  unfoldable pub convert_gas : StateObject T → ℤ → ℤ → Option (StateObject T)
  unfolding sub_amount
  convert_gas o gas price =
      let total = gas *ℤ price in if ltb_ℤ o.balance total then none else some (sub_amount o total)

  unfoldable pub set_gas_pool : StateObject T → ℤ → StateObject T
  set_gas_pool o gas_limit = record o { gas_pool = gas_limit }

  -- `none` is a `GasLimitErr`.
  unfoldable pub buy_gas : StateObject T → ℤ → ℤ → Option (StateObject T)
  unfolding add_amount
  buy_gas o gas price = if ltb_ℤ o.gas_pool gas then none else some (add_amount o (gas *ℤ price))

  unfoldable pub refund_gas : StateObject T → ℤ → ℤ → StateObject T
  refund_gas o gas price = record o {
    gas_pool = o.gas_pool +ℤ gas;
    balance = o.balance -ℤ gas *ℤ price;
  }

  -- The copy starts as a new object, and what is set on it is written out below; a field that is
  -- not set keeps the new object's value.
  unfoldable pub copy : TrieOps T → StateObject T → StateObject T
  copy ops o = record {
    addr = address o.addr;
    balance = o.balance;
    code_hash = o.code_hash;
    nonce = o.nonce;
    state = ops.copy o.state;
    code = o.code;
    init_code = o.init_code;
    storage = o.storage;
    gas_pool = o.gas_pool;
    remove = false;
  }

  -- `int64(len(c.Code)-1) < pc.Int64()`; a negative counter does not pass the test and panics.
  unfoldable pub get_instr : StateObject T → ℤ → Result Item
  unfolding instr_at int_of
  get_instr o pc = do i ← int_of (big pc); instr_at o.code i
