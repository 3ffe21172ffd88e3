-- ===== src/Ethchain/Block/RoundTrip.antt =====
-- A block comes back from its RLP form, and has the same hash.
use eth_go.Common.{
  ℕ, ◌^◌, ◌<◌, ◌≡◌, refl, ap, ap₂, ◌∙◌, arith, List, [], ◌∷◌, ◌++◌, map, length, ok, All,
}
use eth_go.Common.Int.{ℤ, pos, negsuc, nat_abs}
use eth_go.Ethutil.Item.{Item, Items, num, int64, big, bytes, slice, items_of, cons}
use eth_go.Ethutil.Rlp.{encode, encode_items, write_slice_header}
use eth_go.Ethutil.Rlp.Total.{Fits}
use eth_go.Ethutil.Rlp.RoundTrip.{decoded, IsEncodable, length-encode_pos}
use eth_go.Ethutil.Value.{get, item_at, encode_value}
use eth_go.Ethutil.Value.Reads.{
  new_value_from_bytes-encode, get-decoded, big_int-decoded, bytes_of-decoded_bytes,
}
use eth_go.Ethchain.Transaction.{Crypto, Receipt, receipt_of_value, receipt_data, rlp_data}
use eth_go.Ethchain.Transaction.RoundTrip.{
  normal, new_transaction_from_value-decoded, rlp_data-IsEncodable, rlp_data-normal,
}
use eth_go.Ethchain.Block.{
  Header, Block, header, rlp_receipts, rlp_uncles, block_value, rlp_encode,
  new_uncle_block_from_value, read_all, rlp_value_decode, new_block_from_bytes, hash,
}
use eth_go.Ethchain.Block.Loops.{items-AreEncodable, read_all-decoded}
use eth_go.Ethchain.Block.Headers.{
  IsSound, normal_header, header-AreEncodable, root-same, new_uncle_block_from_value-header,
}

unfoldable pub normal_receipt : Receipt → Receipt
unfolding normal
normal_receipt r = record r {
  tx = normal r.tx;
  cumulative_gas_used = pos (nat_abs r.cumulative_gas_used);
}

-- The transactions are those of the receipts.
unfoldable pub normal_block : Block → Block
unfolding normal_header normal_receipt
normal_block b = record {
  head = normal_header b.head;
  uncles = map normal_header b.uncles;
  transactions = map (λ r. r.tx) (map normal_receipt b.receipts);
  receipts = map normal_receipt b.receipts;
}

abbrev pub SoundReceipt : Receipt → Type 0
SoundReceipt r = (r.tx.nonce < 2 ^ 63) × (r.tx.v < 256)

receipt-IsEncodable : (r : Receipt) → IsEncodable (receipt_data r)
unfolding receipt_data
receipt-IsEncodable r = (rlp_data-IsEncodable r.tx, (tt, (tt, tt)))

abbrev receipt_items : Receipt → Items
receipt_items r = items_of (rlp_data r.tx ∷ bytes r.post_state ∷ big r.cumulative_gas_used ∷ [])

receipt_part :
    (r : Receipt) (i : ℕ) (x : Item)
    → i < 3
    → item_at (receipt_items r) i ≡ x
    → get (decoded (receipt_data r)) (pos i) ≡ decoded x
unfolding receipt_data
receipt_part r i x lt e =
    get-decoded (receipt_items r) i (receipt-IsEncodable r) (omega arith) ∙ ap decoded e

receipt_of_value-receipt_data :
    (r : Receipt)
    → SoundReceipt r
    → receipt_of_value (decoded (receipt_data r)) ≡ ok (normal_receipt r)
unfolding receipt_of_value normal_receipt item_at decoded
receipt_of_value-receipt_data r (small, is_byte) =
    rw
      (
        receipt_part r 0 (rlp_data r.tx) (omega arith) refl,
        new_transaction_from_value-decoded r.tx small is_byte,
        receipt_part r 1 (bytes r.post_state) (omega arith) refl,
        bytes_of-decoded_bytes r.post_state,
        receipt_part r 2 (big r.cumulative_gas_used) (omega arith) refl,
        big_int-decoded r.cumulative_gas_used,
      )
      refl

All-map :
    {A : Type 0} {P Q : A → Type 0} → ((x : A) → P x → Q x) → (xs : List A) → All P xs → All Q xs
All-map f [] h = tt
All-map f (x ∷ xs) (hx, h) = (f x hx, All-map f xs h)

-- What the theorems ask of a block.
pub record SoundBlock (b : Block) : Type 0 where
  pub head_sound : IsSound b.head
  pub uncles_sound : All IsSound b.uncles
  pub receipts_sound : All SoundReceipt b.receipts

module _ (b : Block) (s : SoundBlock b) where
  receipts_back :
      read_all receipt_of_value (decoded (rlp_receipts b)) ≡ ok (map normal_receipt b.receipts)
  unfolding rlp_receipts
  receipts_back = read_all-decoded receipt_data receipt_of_value normal_receipt b.receipts (
      All-map (λ r h. (receipt-IsEncodable r, receipt_of_value-receipt_data r h)) b.receipts
        s.receipts_sound)

  uncles_back :
      read_all new_uncle_block_from_value (decoded (rlp_uncles b.uncles))
      ≡ ok (map normal_header b.uncles)
  unfolding rlp_uncles
  uncles_back = read_all-decoded header new_uncle_block_from_value normal_header b.uncles (
      All-map (λ u h. (header-AreEncodable u h.is_root, new_uncle_block_from_value-header u h))
        b.uncles s.uncles_sound)

  block-IsEncodable : IsEncodable (block_value b)
  unfolding block_value rlp_receipts rlp_uncles
  block-IsEncodable = (
    header-AreEncodable b.head s.head_sound.is_root,
    (
      items-AreEncodable receipt_data b.receipts
          (All-map (λ r h. receipt-IsEncodable r) b.receipts s.receipts_sound),
      (
        items-AreEncodable header b.uncles
            (All-map (λ u h. header-AreEncodable u h.is_root) b.uncles s.uncles_sound),
        tt,
      ),
    ),
  )

  -- The RLP form of a block is not empty.
  pub rlp_encode_pos : 0 < length (rlp_encode b)
  unfolding rlp_encode encode_value
  rlp_encode_pos = length-encode_pos (block_value b) block-IsEncodable

  abbrev parts : Items
  parts = items_of (header b.head ∷ rlp_receipts b ∷ rlp_uncles b.uncles ∷ [])

  part :
      (i : ℕ) (x : Item)
      → i < 3
      → item_at parts i ≡ x
      → get (decoded (block_value b)) (pos i) ≡ decoded x
  unfolding block_value
  part i x lt e = get-decoded parts i block-IsEncodable (omega arith) ∙ ap decoded e

  rlp_value_decode-block_value : rlp_value_decode (decoded (block_value b)) ≡ ok (normal_block b)
  unfolding rlp_value_decode normal_block item_at
  rlp_value_decode-block_value =
      rw
        (
          part 0 (header b.head) (omega arith) refl,
          new_uncle_block_from_value-header b.head s.head_sound,
          part 1 (rlp_receipts b) (omega arith) refl,
          receipts_back,
          part 2 (rlp_uncles b.uncles) (omega arith) refl,
          uncles_back,
        )
        refl

  -- A block comes back from its RLP form, with its numbers without sign, with the root that the
  -- decoder reads, with each uncle and receipt in its place, and with the transactions of its
  -- receipts, if its header and its uncles are numbered, have times whose size is below 2^63 and
  -- roots of tries, its transactions have nonces below 2^63 and bytes for v, and its RLP form is
  -- shorter than 2^63 bytes.
  pub new_block_from_bytes-rlp_encode :
      Fits (rlp_encode b) → new_block_from_bytes (rlp_encode b) ≡ ok (normal_block b)
  unfolding new_block_from_bytes rlp_encode encode_value
  new_block_from_bytes-rlp_encode fits =
      rw (new_value_from_bytes-encode (block_value b) block-IsEncodable fits)
        rlp_value_decode-block_value

header-normal : (h : Header) → IsSound h → encode (header (normal_header h)) ≡ encode (header h)
unfolding normal_header encode
header-normal h s = rw (root-same h.root s.is_root, s.has_number, time_same h.time s.time_fits) refl
  where
    time_same :
        (z : ℤ) → nat_abs z < 2 ^ 63 → encode (num int64 (pos (nat_abs z))) ≡ encode (num int64 z)
    time_same (pos n) lt = refl
    time_same (negsuc n) lt = ground arith

receipt-normal : (r : Receipt) → encode (receipt_data (normal_receipt r)) ≡ encode (receipt_data r)
unfolding receipt_data normal_receipt encode
receipt-normal r = rw (rlp_data-normal r.tx) refl

items-same :
    {A : Type 0} (to : A → Item) (back : A → A)
    → (xs : List A) → All (λ x. encode (to (back x)) ≡ encode (to x)) xs
    → encode_items (items_of (map to (map back xs))) ≡ encode_items (items_of (map to xs))
unfolding encode
items-same to back [] h = refl
items-same to back (x ∷ xs) (hx, h) = ap₂ ◌++◌ hx (items-same to back xs h)

slice-same :
    (xs ys : Items) → encode_items xs ≡ encode_items ys → encode (slice xs) ≡ encode (slice ys)
unfolding encode
slice-same xs ys h = ap (λ t. write_slice_header (length t) ++ t) h

cons-same :
    (x y : Item) (xs ys : Items)
    → encode x ≡ encode y
    → encode_items xs ≡ encode_items ys
    → encode_items (cons x xs) ≡ encode_items (cons y ys)
unfolding encode
cons-same x y xs ys h k = ap₂ ◌++◌ h k

block_value-normal :
    (b : Block) → SoundBlock b → encode (block_value (normal_block b)) ≡ encode (block_value b)
unfolding block_value rlp_receipts rlp_uncles normal_block
block_value-normal b s = slice-same _ _ (
    cons-same _ _ _ _ (header-normal b.head s.head_sound) (
      cons-same _ _ _ _
        (slice-same _ _ (
          items-same receipt_data normal_receipt b.receipts
            (All-map (λ r h. receipt-normal r) b.receipts s.receipts_sound)))
        (cons-same _ _ _ _
          (slice-same _ _ (
            items-same header normal_header b.uncles
              (All-map (λ u h. header-normal u h) b.uncles s.uncles_sound)))
          refl)))

-- What comes back of such a block from its RLP form has the same hash as the block.
pub hash-normal_block :
    (crypto : Crypto) (b : Block) → SoundBlock b → hash crypto (normal_block b) ≡ hash crypto b
unfolding hash rlp_encode encode_value
hash-normal_block crypto b s = ap crypto.sha3 (block_value-normal b s)
