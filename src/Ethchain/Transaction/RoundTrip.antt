-- ===== src/Ethchain/Transaction/RoundTrip.antt =====
-- A transaction comes back from its RLP form, and is from the same sender.
use eth_go.Common.{
  ℕ, zero, suc, ◌+◌, ◌-◌, ◌%◌, ◌^◌, ◌≤◌, ◌<◌, ◌≡◌, refl, ap, ap₂, ◌∙◌, arith, List, [], ◌∷◌, ◌++◌,
  Bool, true, false, if◌then◌else◌, length, ok, some, All, replicate,
}
use eth_go.Common.Int.{ℤ, pos, nat_abs}
use eth_go.Ethutil.Bytes.{IsByte, to_bytes, from_bytes, left_pad_bytes}
use eth_go.Ethutil.Bytes.Numbers.{from_bytes-to_bytes, to_bytes-from_bytes, to_bytes-zero}
use eth_go.Ethutil.Item.{Item, Items, num, uint64, byte, big, bytes, slice, items_of}
use eth_go.Ethutil.Rlp.{encode}
use eth_go.Ethutil.Rlp.Total.{Fits}
use eth_go.Ethutil.Rlp.RoundTrip.{decoded, IsEncodable, AreEncodable}
use eth_go.Ethutil.Value.{get, item_at, append_items, uint_of, big_int, bytes_of, encode_value}
use eth_go.Ethutil.Value.Reads.{
  new_value_from_bytes-encode, get-decoded, uint_of-decoded, big_int-decoded,
  bytes_of-decoded_bytes, uint_of-decoded_bytes,
}
use eth_go.Ethchain.Transaction.{
  Transaction, Crypto, is_contract_addr, stripped, hashed_fields, rlp_data, rlp_encode, big_at,
  zero_tx, rlp_value_decode, new_transaction_from_value, new_transaction_from_bytes, hash,
  public_key, sender, address_of_key,
}

-- A big integer that is there.
pub big_at-some :
    (decoder : Item) (i : ℕ) (z : ℤ)
    → big_int (get decoder (pos i)) ≡ ok (some z)
    → big_at decoder i ≡ ok z
big_at-some decoder i z e = rw e refl

-- The fields of a transaction that reads as `tx`.
record ReadsAs (decoder : Item) (tx : Transaction) : Type 0 where
  nonce : uint_of (get decoder (pos 0)) ≡ ok tx.nonce
  gas_price : big_at decoder 1 ≡ ok tx.gas_price
  gas : big_at decoder 2 ≡ ok tx.gas
  recipient : bytes_of (get decoder (pos 3)) ≡ ok tx.recipient
  value : big_at decoder 4 ≡ ok tx.value
  data' : bytes_of (get decoder (pos 5)) ≡ ok tx.data'
  v : uint_of (get decoder (pos 6)) ≡ ok tx.v
  r : bytes_of (get decoder (pos 7)) ≡ ok tx.r
  s : bytes_of (get decoder (pos 8)) ≡ ok tx.s

rlp_value_decode_lem :
    (decoder : Item) (tx : Transaction)
    → ReadsAs decoder tx
    → rlp_value_decode zero_tx decoder
      ≡ ok (record tx {
        v = tx.v % 256;
        contract_creation = if is_contract_addr tx.recipient then true else false;
      })
unfolding rlp_value_decode
rlp_value_decode_lem decoder tx h =
    rw (h.nonce, h.gas_price, h.gas, h.recipient, h.value, h.data', h.v, h.r, h.s) refl

-- What comes back of a transaction: numbers without sign, `r` and `s` without leading zeros, and a
-- contract creation by the recipient alone.
unfoldable pub normal : Transaction → Transaction
normal tx = record tx {
  value = pos (nat_abs tx.value);
  gas = pos (nat_abs tx.gas);
  gas_price = pos (nat_abs tx.gas_price);
  r = stripped tx.r;
  s = stripped tx.s;
  contract_creation = is_contract_addr tx.recipient;
}

abbrev all_fields : Transaction → Items
all_fields tx =
    append_items (hashed_fields tx)
      (items_of (byte tx.v ∷ bytes (stripped tx.r) ∷ bytes (stripped tx.s) ∷ []))

all_encodable : (tx : Transaction) → AreEncodable (all_fields tx)
unfolding append_items
all_encodable tx = (tt, (tt, (tt, (tt, (tt, (tt, (tt, (tt, (tt, tt)))))))))

pub rlp_data-IsEncodable : (tx : Transaction) → IsEncodable (rlp_data tx)
unfolding rlp_data append_items
rlp_data-IsEncodable tx = all_encodable tx

-- What is written of a transaction is what is written of what comes back of it.
pub rlp_data-normal : (tx : Transaction) → encode (rlp_data (normal tx)) ≡ encode (rlp_data tx)
unfolding rlp_data normal append_items encode
rlp_data-normal tx =
    rw (from_bytes-to_bytes (from_bytes tx.r), from_bytes-to_bytes (from_bytes tx.s)) refl

closed :
    (tx : Transaction)
    → tx.v < 256
    → is_contract_addr tx.recipient ≡ tx.contract_creation
    → ok (record tx {
      v = tx.v % 256;
      contract_creation = if is_contract_addr tx.recipient then true else false;
    })
      ≡ ok tx
closed tx h e = rw (e, ◌%◌-small tx.v h) (unchanged tx.contract_creation)
  where
    ◌%◌-small : (n : ℕ) → n < 256 → n % 256 ≡ n
    ◌%◌-small n h = omega arith

    unchanged :
        (b : Bool)
        → ok (record tx { contract_creation = if b then true else false })
          ≡ ok (record tx { contract_creation = b })
    unchanged true = refl
    unchanged false = refl

module _ (tx : Transaction) (small : tx.nonce < 2 ^ 63) (is_byte : tx.v < 256) where
  field :
      (i : ℕ) (x : Item)
      → i < 9
      → item_at (all_fields tx) i ≡ x
      → get (decoded (slice (all_fields tx))) (pos i) ≡ decoded x
  unfolding append_items
  field i x h e = get-decoded (all_fields tx) i (all_encodable tx) (omega arith) ∙ ap decoded e

  big_field :
      (i : ℕ) (z : ℤ)
      → i < 9
      → item_at (all_fields tx) i ≡ big z
      → big_at (decoded (slice (all_fields tx))) i ≡ ok (pos (nat_abs z))
  big_field i z h e = big_at-some _ i _ (rw (field i (big z) h e) (big_int-decoded z))

  bytes_field :
      (i : ℕ) (t : List ℕ)
      → i < 9
      → item_at (all_fields tx) i ≡ bytes t
      → bytes_of (get (decoded (slice (all_fields tx))) (pos i)) ≡ ok t
  unfolding decoded
  bytes_field i t h e = rw (field i (bytes t) h e) (bytes_of-decoded_bytes t)

  v_read : uint_of (decoded (byte tx.v)) ≡ ok tx.v
  unfolding decoded
  v_read = ground (arith, uint_of-decoded_bytes (to_bytes tx.v), from_bytes-to_bytes tx.v)

  fields_read : ReadsAs (decoded (slice (all_fields tx))) (normal tx)
  unfolding normal append_items item_at
  fields_read = record {
    nonce =
        rw (field 0 (num uint64 (pos tx.nonce)) (omega arith) refl)
          (uint_of-decoded uint64 tx.nonce small);
    gas_price = big_field 1 tx.gas_price (omega arith) refl;
    gas = big_field 2 tx.gas (omega arith) refl;
    recipient = bytes_field 3 tx.recipient (omega arith) refl;
    value = big_field 4 tx.value (omega arith) refl;
    data' = bytes_field 5 tx.data' (omega arith) refl;
    v = rw (field 6 (byte tx.v) (omega arith) refl) v_read;
    r = bytes_field 7 (stripped tx.r) (omega arith) refl;
    s = bytes_field 8 (stripped tx.s) (omega arith) refl;
  }

  pub new_transaction_from_value-decoded :
      new_transaction_from_value (decoded (rlp_data tx)) ≡ ok (normal tx)
  unfolding new_transaction_from_value rlp_data normal
  new_transaction_from_value-decoded =
      rlp_value_decode_lem (decoded (slice (all_fields tx))) (normal tx) fields_read
      ∙ closed (normal tx) is_byte refl

  -- A transaction whose nonce is below 2 ^ 63 and whose `v` is a byte comes back from its RLP form with
  -- the absolute values of its numbers, its recipient and its data, and `r` and `s` without leading
  -- zeros; it creates a contract exactly where the recipient is the zero address.
  pub new_transaction_from_bytes-rlp_encode :
      Fits (rlp_encode tx) → new_transaction_from_bytes (rlp_encode tx) ≡ ok (normal tx)
  unfolding new_transaction_from_bytes rlp_encode rlp_data encode_value normal
  new_transaction_from_bytes-rlp_encode fits =
      rw
        (
          new_value_from_bytes-encode (slice (all_fields tx)) (all_encodable tx) fits,
          rlp_value_decode_lem (decoded (slice (all_fields tx))) (normal tx) fields_read,
        )
        (closed (normal tx) is_byte refl)

replicate_last : (k : ℕ) (b : List ℕ) → replicate (suc k) 0 ++ b ≡ replicate k 0 ++ (0 ∷ b)
replicate_last zero b = refl
replicate_last (suc k) b = ap (λ t. 0 ∷ t) (replicate_last k b)

left_pad_bytes-zero :
    (b : List ℕ) (n : ℕ) → suc (length b) ≤ n → left_pad_bytes b n ≡ left_pad_bytes (0 ∷ b) n
unfolding left_pad_bytes
left_pad_bytes-zero b n h = ground (arith, replicate_last (n - suc (length b)) b, minus)
  where
    minus : n - length b ≡ suc (n - suc (length b))
    minus = omega arith

from_bytes-zero : (b : List ℕ) → from_bytes (0 ∷ b) ≡ from_bytes b
unfolding from_bytes
from_bytes-zero b = refl

-- Padding takes no notice of leading zeros.
left_pad_bytes-stripped :
    (b : List ℕ) (n : ℕ)
    → All IsByte b
    → length b ≤ n
    → left_pad_bytes (stripped b) n ≡ left_pad_bytes b n
unfolding from_bytes
left_pad_bytes-stripped [] n h le = ap (λ t. left_pad_bytes t n) to_bytes-zero
left_pad_bytes-stripped (zero ∷ b) n (hx, h) le =
    ap (λ m. left_pad_bytes (to_bytes m) n) (from_bytes-zero b)
    ∙ (left_pad_bytes-stripped b n h (omega arith) ∙ left_pad_bytes-zero b n le)
left_pad_bytes-stripped (suc x ∷ b) n (hx, h) le =
    ap (λ t. left_pad_bytes t n) (to_bytes-from_bytes (suc x) b (omega arith) (hx, h))

-- What is hashed of a number is its absolute value.
hash-normal : (crypto : Crypto) (tx : Transaction) → hash crypto (normal tx) ≡ hash crypto tx
unfolding hash normal encode_value encode
hash-normal crypto tx = refl

-- The sender of a transaction is the sender of what comes back of it, if `r` and `s` are of bytes and
-- no longer than 32.
pub sender-normal :
    (crypto : Crypto) (tx : Transaction)
    → All IsByte tx.r
    → All IsByte tx.s
    → length tx.r ≤ 32
    → length tx.s ≤ 32
    → sender crypto (normal tx) ≡ sender crypto tx
unfolding sender public_key normal
sender-normal crypto tx hr hs lr ls = ap (address_of_key crypto) (
    ap₂ crypto.recover (hash-normal crypto tx) (
      ap₂ (λ r s. r ++ s ++ ((tx.v + 229) % 256 ∷ [])) (left_pad_bytes-stripped tx.r 32 hr lr)
        (left_pad_bytes-stripped tx.s 32 hs ls)))
