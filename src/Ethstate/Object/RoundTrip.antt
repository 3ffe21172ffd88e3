-- ===== src/Ethstate/Object/RoundTrip.antt =====
-- What `RlpEncode` writes of an object, `RlpDecode` reads.
use eth_go.Common.{ℕ, ◌<◌, ◌^◌, ◌≡◌, refl, arith, List, [], ok, some}
use eth_go.Common.Int.{ℤ, pos, nat_abs}
use eth_go.Ethutil.Item.{Item, uint64, slice}
use eth_go.Ethutil.Rlp.Total.{Fits}
use eth_go.Ethutil.Rlp.RoundTrip.{decoded, IsEncodable, AreEncodable}
use eth_go.Ethutil.Value.{get, item_at, uint_of, big_int, bytes_of, new_value_from_bytes}
use eth_go.Ethutil.Value.Reads.{
  new_value_from_bytes-encode, get-decoded, uint_of-decoded, big_int-decoded,
  bytes_of-decoded_bytes,
}
use eth_go.Ethstate.Trie.{TrieOps, Store}
use eth_go.Ethstate.Object.{StateObject, rlp_decode, rlp_fields, rlp_encode}

module _ {T : Type 0} (ops : TrieOps T) (db : Store) where
  rlp_decode_fields :
      (o : StateObject T) (decoder root : Item) (n : ℕ) (z : ℤ) (hash code data' : List ℕ)
      → new_value_from_bytes data' ≡ ok decoder
      → uint_of (get decoder (pos 0)) ≡ ok n
      → big_int (get decoder (pos 1)) ≡ ok (some z)
      → get decoder (pos 2) ≡ decoded root
      → bytes_of (get decoder (pos 3)) ≡ ok hash
      → db.read hash ≡ code
      → rlp_decode ops db o data'
        ≡ ok (record o {
          nonce = n;
          balance = z;
          state = ops.at_root (decoded root);
          storage = [];
          gas_pool = pos 0;
          code_hash = hash;
          code = code;
        })
  unfolding rlp_decode
  rlp_decode_fields o decoder root n z hash code data' a b c d e f = rw (a, b, c, d, e, f) refl

  -- The object that is read has the nonce, the code and the decoder's form of the root that were
  -- written, and the absolute value of the balance, if the nonce is below 2 ^ 63 and the database
  -- has the code under its hash; its cache and its gas pool are empty.
  pub rlp_decode-rlp_encode :
      (o o' : StateObject T)
      → o.nonce < 2 ^ 63
      → IsEncodable (ops.root o.state)
      → Fits (rlp_encode ops db o)
      → db.read (db.sha3 o.code) ≡ o.code
      → rlp_decode ops db o' (rlp_encode ops db o)
        ≡ ok (record o' {
          nonce = o.nonce;
          balance = pos (nat_abs o.balance);
          state = ops.at_root (decoded (ops.root o.state));
          storage = [];
          gas_pool = pos 0;
          code_hash = db.sha3 o.code;
          code = o.code;
        })
  unfolding rlp_encode item_at decoded
  rlp_decode-rlp_encode o o' small h fits kept =
      let xs = rlp_fields ops db o in
      let fields : AreEncodable xs = (tt, (tt, (h, (tt, tt)))) in
      rlp_decode_fields o' (decoded (slice xs)) (ops.root o.state) o.nonce (pos (nat_abs o.balance))
        (db.sha3 o.code) o.code _ (new_value_from_bytes-encode (slice xs) fields fits)
        (rw (get-decoded xs 0 fields (omega arith)) (uint_of-decoded uint64 o.nonce small))
        (rw (get-decoded xs 1 fields (omega arith)) (big_int-decoded o.balance))
        (get-decoded xs 2 fields (omega arith))
        (rw (get-decoded xs 3 fields (omega arith)) (bytes_of-decoded_bytes (db.sha3 o.code))) kept
