-- ===== src/Ethchain/Block/Headers.antt =====
-- A header comes back from its RLP form.
use eth_go.Common.{
  ℕ, ◌%◌, ◌^◌, ◌<◌, ◌≡◌, refl, ap, ◌∙◌, arith, List, [], ◌∷◌, ok, Option, none, some,
}
use eth_go.Common.Int.{ℤ, pos, negsuc, nat_abs}
use eth_go.Ethutil.Item.{Item, num, int64, big, bytes, str, to_int64}
use eth_go.Ethutil.Rlp.{encode, big_bytes}
use eth_go.Ethutil.Rlp.RoundTrip.{decoded, decoded_bytes, IsEncodable, AreEncodable}
use eth_go.Ethutil.Value.{get, item_at, big_int, bytes_of, str_of, signed64}
use eth_go.Ethutil.Value.Reads.{
  get-decoded, big_int-decoded, bytes_of-decoded_bytes, str_of-decoded_bytes,
}
use eth_go.Ethchain.Transaction.{big_at}
use eth_go.Ethchain.Transaction.RoundTrip.{big_at-some}
use eth_go.Ethchain.Block.{Header, big_or_nil, header_items, header, new_uncle_block_from_value}

-- The root of a trie: the empty string, as it is written or as it is read, or a hash.
pub data IsRoot : Item → Type 0 where
  empty_root : IsRoot (str [])
  loaded_root : IsRoot (bytes [])
  hash_root : (a b : ℕ) (t : List ℕ) → IsRoot (bytes (a ∷ b ∷ t))

pub root-IsEncodable : (r : Item) → IsRoot r → IsEncodable r
root-IsEncodable _ empty_root = tt
root-IsEncodable _ loaded_root = tt
root-IsEncodable _ (hash_root a b t) = tt

pub root-same : (r : Item) → IsRoot r → encode (decoded r) ≡ encode r
unfolding encode decoded decoded_bytes
root-same _ empty_root = refl
root-same _ loaded_root = refl
root-same _ (hash_root a b t) = refl

-- A header whose number is set, as every header's is that was made from a parent.
pub record IsSound (h : Header) : Type 0 where
  pub n : ℤ
  pub has_number : h.number ≡ some n
  pub time_fits : nat_abs h.time < 2 ^ 63
  pub is_root : IsRoot h.root

abbrev pub number_back : Option ℤ → ℤ
number_back none = pos 0
number_back (some z) = pos (nat_abs z)

-- Numbers come back without their sign.
unfoldable pub normal_header : Header → Header
normal_header h = record h {
  root = decoded h.root;
  difficulty = pos (nat_abs h.difficulty);
  number = some (number_back h.number);
  min_gas_price = pos (nat_abs h.min_gas_price);
  gas_limit = pos (nat_abs h.gas_limit);
  gas_used = pos (nat_abs h.gas_used);
  time = pos (nat_abs h.time);
}

pub header-AreEncodable : (h : Header) → IsRoot h.root → AreEncodable (header_items h)
header-AreEncodable h r = (
  tt,
  (
    tt,
    (
      tt,
      (
        root-IsEncodable h.root r,
        (tt, (tt, (number h.number, (tt, (tt, (tt, (tt, (tt, (tt, tt))))))))),
      ),
    ),
  ),
)
  where
    number : (o : Option ℤ) → IsEncodable (big_or_nil o)
    number none = tt
    number (some z) = tt

big_int-number : (o : Option ℤ) → big_int (decoded (big_or_nil o)) ≡ ok (some (number_back o))
unfolding decoded big_int
big_int-number none = refl
big_int-number (some z) = big_int-decoded z

module _ (h : Header) (s : IsSound h) where
  field :
      (i : ℕ) (x : Item)
      → i < 13
      → item_at (header_items h) i ≡ x
      → get (decoded (header h)) (pos i) ≡ decoded x
  field i x lt e =
      get-decoded (header_items h) i (header-AreEncodable h s.is_root) (omega arith) ∙ ap decoded e

  big_field :
      (i : ℕ) (z : ℤ)
      → i < 13
      → item_at (header_items h) i ≡ big z
      → big_at (decoded (header h)) i ≡ ok (pos (nat_abs z))
  big_field i z lt e = big_at-some _ i _ (rw (field i (big z) lt e) (big_int-decoded z))

  bytes_field :
      (i : ℕ) (t : List ℕ)
      → i < 13
      → item_at (header_items h) i ≡ bytes t
      → bytes_of (get (decoded (header h)) (pos i)) ≡ ok t
  unfolding decoded
  bytes_field i t lt e = rw (field i (bytes t) lt e) (bytes_of-decoded_bytes t)

  -- Reading the time: the number whose 64 bits are kept is below 2 ^ 63.
  time_back : signed64 (nat_abs (pos (nat_abs h.time)) % 2 ^ 64) ≡ pos (nat_abs h.time)
  time_back = in_range (nat_abs h.time) s.time_fits
    where
      in_range : (n : ℕ) → n < 2 ^ 63 → signed64 (n % 2 ^ 64) ≡ pos n
      in_range n lt = ground arith

  time_written : decoded (num int64 h.time) ≡ decoded (big h.time)
  unfolding decoded
  time_written = same h.time s.time_fits
    where
      same :
          (z : ℤ)
          → nat_abs z < 2 ^ 63
          → decoded_bytes (big_bytes (to_int64 z)) ≡ decoded_bytes (big_bytes z)
      same (pos n) lt = ground arith
      same (negsuc n) lt = refl

  time_read : big_at (decoded (header h)) 10 ≡ ok (pos (nat_abs h.time))
  unfolding item_at
  time_read =
      big_at-some _ 10 _
        (rw (field 10 (num int64 h.time) (omega arith) refl, time_written) (big_int-decoded h.time))

  number_read : big_int (get (decoded (header h)) (pos 6)) ≡ ok (some (number_back h.number))
  unfolding item_at
  number_read = rw (field 6 (big_or_nil h.number) (omega arith) refl) (big_int-number h.number)

  extra_read : str_of (get (decoded (header h)) (pos 11)) ≡ h.extra
  unfolding decoded item_at
  extra_read = rw (field 11 (str h.extra) (omega arith) refl) (str_of-decoded_bytes h.extra)

  pub new_uncle_block_from_value-header :
      new_uncle_block_from_value (decoded (header h)) ≡ ok (normal_header h)
  unfolding new_uncle_block_from_value normal_header item_at
  new_uncle_block_from_value-header =
      rw
        (
          bytes_field 0 h.prev_hash (omega arith) refl,
          bytes_field 1 h.uncle_sha (omega arith) refl,
          bytes_field 2 h.coinbase (omega arith) refl,
          bytes_field 4 h.tx_sha (omega arith) refl,
          big_field 5 h.difficulty (omega arith) refl,
          number_read,
          big_field 7 h.min_gas_price (omega arith) refl,
          big_field 8 h.gas_limit (omega arith) refl,
          big_field 9 h.gas_used (omega arith) refl,
          time_read,
          bytes_field 12 h.nonce (omega arith) refl,
          field 3 h.root (omega arith) refl,
          time_back,
          extra_read,
        )
        refl
