-- ===== src/Ethchain/Chain/Children.antt =====
-- A new block on top of the head.
use eth_go.Common.{
  ℕ, suc, ◌+◌, ◌-◌, ◌/◌, ◌^◌, ◌≤◌, ◌<◌, ◌≡◌, refl, ap, ◌∙◌, sym, subst, arith, List, ◌∷◌, All, Bool,
  true, false, ok, Option, none, some, or_panic, ltb, lt→ltb, Yields, yields, Yields-bind,
  Yields-ok, if◌then◌else◌,
}
use eth_go.Common.Int.{ℤ, pos, negsuc, ltb_ℤ, nat_abs, ◌+ℤ◌, ◌*ℤ◌}
use eth_go.Ethutil.Value.{signed64, to_uint64}
use eth_go.Ethutil.Rlp.Total.{Fits}
use eth_go.Ethchain.Transaction.{Crypto}
use eth_go.Ethchain.Block.{
  Block, hash, rlp_encode, calc_gas_limit, create_block, set_uncles, div_by,
}
use eth_go.Ethchain.Block.Headers.{IsRoot}
use eth_go.Ethchain.Block.RoundTrip.{SoundBlock}
use eth_go.Ethchain.Chain.{BlockChain, new_block, block_after, first_block, next_difficulty, add}
use eth_go.Ethchain.Chain.Stored.{HashSize}
use eth_go.Ethchain.Chain.Walks.{Linked}
use eth_go.Ethchain.Chain.Heads.{IsOther, Linked-add}

-- The difficulty is moved by one part in 1024.
abbrev moved : Bool → ℕ → ℕ
moved true d = d + d / 1024
moved false d = d - d / 1024

moved_difficulty :
    (sooner : Bool) (d : ℕ)
    → (div_by (pos d) 1024 *ℤ (if sooner then pos 1 else negsuc 0)) +ℤ pos d ≡ pos (moved sooner d)
unfolding ◌*ℤ◌ ◌+ℤ◌
moved_difficulty true d = ground arith
moved_difficulty false d = ground arith

-- Whether a time comes sooner than 42 seconds after another.
sooner_than :
    (last w : ℕ)
    → last + 42 < 2 ^ 63
    → ltb_ℤ (pos w) (signed64 (to_uint64 (pos last +ℤ pos 42))) ≡ ltb w (last + 42)
unfolding ◌+ℤ◌
sooner_than last w h = ground arith

next_difficulty-moved :
    (d last w : ℕ)
    → last + 42 < 2 ^ 63
    → next_difficulty (pos d) (pos last) (pos w) ≡ pos (moved (ltb w (last + 42)) d)
unfolding next_difficulty
next_difficulty-moved d last w h =
    rw (sooner_than last w h) (moved_difficulty (ltb w (last + 42)) d)

one_more :
    (o : Option ℤ) (number : ℤ) (n : ℕ)
    → or_panic o ≡ ok number
    → o ≡ some (pos n)
    → some (number +ℤ pos 1) ≡ some (pos (suc n))
unfolding ◌+ℤ◌
one_more none number n e h = absurd (cc)
one_more (some z) number n e h =
    ap (λ m. some (m +ℤ pos 1)) (same z number (pos n) e h) ∙ ap some (next n)
  where
    same : (z a b : ℤ) → ok z ≡ ok a → some z ≡ some b → a ≡ b
    same z a b p q = cc

    next : (n : ℕ) → pos n +ℤ pos 1 ≡ pos (suc n)
    next n = ground arith

module _ (crypto : Crypto) (bc : BlockChain) (current : Block) (now : ℤ) where
  -- A block that follows the head.
  record Follows (n : ℕ) (block : Block) : Type 0 where
    parent : block.head.prev_hash ≡ bc.last_block_hash
    number : block.head.number ≡ some (pos (suc n))
    difficulty :
        block.head.difficulty ≡ next_difficulty current.head.difficulty current.head.time now
    sound : SoundBlock block

  block_after-Follows :
      (n : ℕ) (coinbase : List ℕ)
      → current.head.number ≡ some (pos n)
      → IsRoot current.head.root
      → nat_abs now < 2 ^ 63
      → Yields (Follows n) (block_after crypto bc current now coinbase)
  unfolding block_after create_block set_uncles
  block_after-Follows n coinbase h root fits =
      Yields-bind (Follows n) (or_panic current.head.number) _ (λ number e1.
        Yields-bind (Follows n) (calc_gas_limit _ current.head) _ (λ gas_limit e2.
          yields _ (record {
            parent = refl;
            number = one_more current.head.number number n e1 h;
            difficulty = refl;
            sound = record {
              head_sound = record {
                n = number +ℤ pos 1;
                has_number = refl;
                time_fits = fits;
                is_root = root;
              };
              uncles_sound = tt;
              receipts_sound = tt;
            };
          })))

  is_child :
      (n : ℕ) (coinbase : List ℕ) (block : Block)
      → bc.current_block ≡ some current
      → new_block crypto bc now coinbase ≡ ok block
      → current.head.number ≡ some (pos n)
      → IsRoot current.head.root
      → nat_abs now < 2 ^ 63
      → Follows n block
  unfolding new_block
  is_child n coinbase block is_head e h root fits = Yields-ok (Follows n) block (
      subst (Yields (Follows n)) (sym (at_head bc.current_block is_head) ∙ e)
        (block_after-Follows n coinbase h root fits))
    where
      at_head :
          (o : Option Block)
          → o ≡ some current
          → (elim o [
            | none ↦ ok (first_block crypto now coinbase)
            | some b ↦ block_after crypto bc b now coinbase
          ])
            ≡ block_after crypto bc current now coinbase
      at_head o p = rw p refl

  -- The difficulty of a block that NewBlock makes on a numbered current block of a difficulty d that is
  -- not negative: one part in 1024 of it, rounded down, is added where the time of the new block is less
  -- than 42 seconds after that of the current block, and taken away from 42 seconds on. This is for times
  -- that are not negative, of which that of the new block is below 2^63, as that of the current block is
  -- with 42 seconds added, and for a current block with the root of a trie.
  pub new_block-difficulty :
      (n d last w : ℕ) (coinbase : List ℕ) (block : Block)
      → bc.current_block ≡ some current
      → new_block crypto bc now coinbase ≡ ok block
      → current.head.number ≡ some (pos n)
      → current.head.difficulty ≡ pos d
      → IsRoot current.head.root
      → current.head.time ≡ pos last
      → last + 42 < 2 ^ 63
      → now ≡ pos w
      → w < 2 ^ 63
      → (w < last + 42 → block.head.difficulty ≡ pos (d + d / 1024))
        × (last + 42 ≤ w → block.head.difficulty ≡ pos (d - d / 1024))
  new_block-difficulty n d last w coinbase block is_head e h hd root before small at fits = (
    λ lt. difficulty ∙ ap (λ b. pos (moved b d)) (lt→ltb w (last + 42) lt),
    λ le. difficulty ∙ ap (λ b. pos (moved b d)) (not_sooner le),
  )
    where
      not_sooner : last + 42 ≤ w → ltb w (last + 42) ≡ false
      not_sooner le = ground arith

      difficulty : block.head.difficulty ≡ pos (moved (ltb w (last + 42)) d)
      difficulty =
          Follows.difficulty (is_child n coinbase block is_head e h root (rw at fits))
          ∙ rw (hd, before, at) (next_difficulty-moved d last w small)

  -- With hashes of 32 bytes: if the store has a chain of blocks from the last hash back to the
  -- genesis block, each numbered one more than its parent, and the current block has the number of
  -- its head and as its state the root of a trie, then a block that NewBlock makes at a time whose
  -- size is below 2^63, and that Add puts into the chain, heads a chain with one block more,
  -- numbered one more, provided that its hash is that of no block on the chain and its RLP form is
  -- shorter than 2^63 bytes.
  pub Linked-new_block :
      (n : ℕ) (coinbase : List ℕ) (block : Block) (hs : List (List ℕ))
      → HashSize crypto
      → bc.current_block ≡ some current
      → current.head.number ≡ some (pos n)
      → IsRoot current.head.root
      → nat_abs now < 2 ^ 63
      → Linked crypto bc.db n bc.last_block_hash hs
      → new_block crypto bc now coinbase ≡ ok block
      → All (IsOther crypto block) hs
      → Fits (rlp_encode block)
      → Linked crypto (add crypto bc block).db (suc n) (hash crypto block) (hash crypto block ∷ hs)
  Linked-new_block n coinbase block hs size is_head h root fits l e other small =
      let f = is_child n coinbase block is_head e h root fits in
      Linked-add crypto bc block size n hs
        (subst (λ p. Linked crypto bc.db n p hs) (sym f.parent) l) other f.sound small f.number
