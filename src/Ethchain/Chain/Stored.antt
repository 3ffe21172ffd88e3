-- ===== src/Ethchain/Chain/Stored.antt =====
-- A block that is added is found under its hash.
use eth_go.Common.{
  ℕ, ◌<◌, ◌≡◌, refl, ap, arith, List, [], ◌∷◌, false, Bool-cases, inl, inr, length, length-append,
  ok, some, same_bytes, same_bytes-eq, same_bytes_refl, lookup, lookup-insert, if◌then◌else◌,
}
use eth_go.Ethutil.Rlp.Total.{Fits}
use eth_go.Ethchain.Transaction.{Crypto}
use eth_go.Ethchain.Block.{Block, hash, rlp_encode, new_block_from_bytes}
use eth_go.Ethchain.Block.RoundTrip.{
  SoundBlock, normal_block, rlp_encode_pos, new_block_from_bytes-rlp_encode,
}
use eth_go.Ethchain.Chain.{
  BlockChain, info_key, last_block_key, decode_block, get_block, add, write_block_info,
}

-- Strings of different lengths are different.
other_length : (a b : List ℕ) → length a < length b → same_bytes a b ≡ false
other_length a b h = elim (Bool-cases (same_bytes a b)) [
  | inl e ↦ absurd (omega (arith, ap length (same_bytes-eq a b e)))
  | inr e ↦ e
]

other_length_rev : (a b : List ℕ) → length b < length a → same_bytes a b ≡ false
other_length_rev a b h = elim (Bool-cases (same_bytes a b)) [
  | inl e ↦ absurd (omega (arith, ap length (same_bytes-eq a b e)))
  | inr e ↦ e
]

-- A hash has 32 bytes.
abbrev pub HashSize : Crypto → Type 0
HashSize crypto = (b : List ℕ) → length (crypto.sha3 b) ≡ 32

module _ (crypto : Crypto) (size : HashSize crypto) (bc : BlockChain) (block : Block) where
  hash_size : length (hash crypto block) ≡ 32
  unfolding hash
  hash_size = size (rlp_encode block)

  -- Under a key of the length of a hash, only the block itself is put.
  pub lookup-add :
      (k : List ℕ)
      → length k ≡ 32
      → lookup (add crypto bc block).db k
        ≡ (if same_bytes (hash crypto block) k then some (rlp_encode block) else lookup bc.db k)
  unfolding add write_block_info
  lookup-add k h =
      rw
        (
          lookup-insert _ last_block_key (rlp_encode block) k,
          other_length last_block_key k (omega arith),
          lookup-insert _ (hash crypto block) (rlp_encode block) k,
          lookup-insert bc.db (info_key (hash crypto block)) _ k,
          other_length_rev (info_key (hash crypto block)) k (
              omega
                (arith, length-append (hash crypto block) (73 ∷ 110 ∷ 102 ∷ 111 ∷ []), hash_size)),
        )
        refl

decode_block-rlp_encode :
    (block : Block)
    → SoundBlock block
    → Fits (rlp_encode block)
    → decode_block (rlp_encode block) ≡ ok (some (normal_block block))
decode_block-rlp_encode block s fits =
    from_some (rlp_encode block) (rlp_encode_pos block s)
      (new_block_from_bytes-rlp_encode block s fits)
  where
    from_some :
        (t : List ℕ)
        → 0 < length t
        → new_block_from_bytes t ≡ ok (normal_block block)
        → decode_block t ≡ ok (some (normal_block block))
    from_some [] h e = absurd (omega arith)
    from_some (b ∷ t) h e = rw e refl

-- With hashes of 32 bytes: after Add the block is found by its hash, as what comes back of it, if
-- its header and its uncles are numbered, have times whose size is below 2^63 and roots of tries,
-- its transactions have nonces below 2^63 and bytes for v, and its RLP form is shorter than 2^63
-- bytes.
pub get_block-add :
    (crypto : Crypto) (bc : BlockChain) (block : Block)
    → HashSize crypto
    → SoundBlock block
    → Fits (rlp_encode block)
    → get_block (add crypto bc block).db (hash crypto block) ≡ ok (some (normal_block block))
unfolding get_block
get_block-add crypto bc block size s fits =
    rw
      (
        lookup-add crypto size bc block (hash crypto block) (hash_size crypto size bc block),
        same_bytes_refl (hash crypto block),
      )
      (decode_block-rlp_encode block s fits)

-- Every other block of the store is as it was.
pub get_block-add_other :
    (crypto : Crypto) (bc : BlockChain) (block : Block) (k : List ℕ)
    → HashSize crypto
    → length k ≡ 32
    → same_bytes (hash crypto block) k ≡ false
    → get_block (add crypto bc block).db k ≡ get_block bc.db k
unfolding get_block
get_block-add_other crypto bc block k size h ne = rw (lookup-add crypto size bc block k h, ne) refl
