-- ===== src/Ethchain/Chain/Choice.antt =====
-- The choice between two chains ends, and the heavier one is taken.
use eth_go.Common.{
  ℕ, zero, suc, ◌<◌, ◌≡◌, refl, sym, subst, ◌∙◌, arith, List, Bool, true, false, not, Result, ok,
  ◌>>=◌, or_panic, Option, some, same_bytes, same_bytes_refl, if◌then◌else◌,
}
use eth_go.Common.Int.{ℤ, pos, ltb_ℤ, ◌+ℤ◌}
use eth_go.Ethchain.Transaction.{Crypto}
use eth_go.Ethchain.Block.{Block, hash}
use eth_go.Ethchain.Chain.{
  BlockChain, Db, get_block, calculate_block_td, number_of, current_difficulty, incoming_difficulty,
  head_at, reset_till_block_hash, find_canonical_chain,
}

module _ (crypto : Crypto) (db : Db) (common : List ℕ) where
  -- The way back from a hash to the common block: how many blocks are in front of it, and their
  -- difficulty.
  pub data Way : ℕ → ℤ → List ℕ → Type 0 where
    arrived :
        (h : List ℕ) (b : Block)
        → get_block db h ≡ ok (some b)
        → hash crypto b ≡ common
        → Way 0 (pos 0) h
    onward :
        (k : ℕ) (z : ℤ) (h : List ℕ) (b : Block)
        → get_block db h ≡ ok (some b)
        → same_bytes (hash crypto b) common ≡ false
        → Way k z b.head.prev_hash
        → Way (suc k) (calculate_block_td b +ℤ z) h

  stored : (k : ℕ) (z : ℤ) (h : List ℕ) → Way k z h → (b : Block) × (get_block db h ≡ ok (some b))
  stored _ _ _ (arrived h b g e) = (b, g)
  stored _ _ _ (onward k z h b g e w) = (b, g)

  -- The round at a block that is not the common one.
  round :
      (fuel : ℕ) (b parent : Block) (z : ℤ)
      → same_bytes (hash crypto b) common ≡ false
      → get_block db b.head.prev_hash ≡ ok (some parent)
      → current_difficulty crypto fuel db (some parent) common ≡ ok z
      → current_difficulty crypto (suc fuel) db (some b) common ≡ ok (calculate_block_td b +ℤ z)
  unfolding current_difficulty
  round fuel b parent z ne g e = rw (ne, g, e) refl

  at_common :
      (fuel : ℕ) (b : Block)
      → hash crypto b ≡ common
      → current_difficulty crypto (suc fuel) db (some b) common ≡ ok (pos 0)
  unfolding current_difficulty
  at_common fuel b e = rw (e, same_bytes_refl common) refl

  walk :
      (k : ℕ) (z : ℤ) (h : List ℕ) (fuel : ℕ)
      → Way k z h
      → k < fuel
      → (do b ← get_block db h; current_difficulty crypto fuel db b common) ≡ ok z
  walk k z h zero w lt = absurd (omega arith)
  walk _ _ _ (suc fuel) (arrived h b g e) lt = rw g (at_common fuel b e)
  walk _ _ _ (suc fuel) (onward k z h b g ne w) lt =
      let (parent, gp) = stored k z b.head.prev_hash w in
      rw g (round fuel b parent z ne gp (rw gp at (walk k z b.head.prev_hash fuel w (omega arith))))

  -- Enough fuel is one more than the blocks on the way.
  pub current_difficulty-Way :
      (k : ℕ) (z : ℤ) (h : List ℕ) (fuel : ℕ) (b : Block)
      → Way k z h
      → get_block db h ≡ ok (some b)
      → k < fuel
      → current_difficulty crypto fuel db (some b) common ≡ ok z
  current_difficulty-Way k z h fuel b w g lt = rw g at (walk k z h fuel w lt)

-- A first step that is known.
bind-ok : {A B : Type 0} (r : Result A) (f : A → Result B) (a : A) → r ≡ ok a → (r >>= f) ≡ f a
bind-ok r f a h = rw h refl

-- A computation that returns.
abbrev Returns : {A : Type 0} → Result A → Type 0
Returns {A} r = (a : A) × (r ≡ ok a)

Returns-bind :
    {A B : Type 0} (r : Result A) (f : A → Result B) (a : A)
    → r ≡ ok a
    → Returns (f a)
    → Returns (r >>= f)
Returns-bind r f a h (b, k) = (b, bind-ok r f a h ∙ k)

Returns-if :
    {A : Type 0} (b : Bool) (r s : Result A) → Returns r → Returns s → Returns (if b then r else s)
Returns-if true r s h k = h
Returns-if false r s h k = k

chosen :
    (b : Bool) (change : Result (Bool × BlockChain)) (bc moved : BlockChain)
    → change ≡ ok (false, moved)
    → (bc2 : BlockChain) × ((if b then change else ok (true, bc)) ≡ ok (not b, bc2))
chosen true change bc moved h = (moved, h)
chosen false change bc moved h = (bc, refl)

module _ (crypto : Crypto) (bc : BlockChain) (common : List ℕ) where
  or_panic-eq : {A : Type 0} (o : Option A) (a : A) → o ≡ some a → or_panic o ≡ ok a
  or_panic-eq o a h = rw h refl

  number_of-eq : (b : Block) (n : ℤ) → b.head.number ≡ some n → Returns (number_of b)
  number_of-eq b n h = Returns-bind (or_panic b.head.number) _ n (or_panic-eq _ n h) (_, refl)

  -- A reset to a numbered block of the store, or to the genesis block, does not panic.
  head_at-ok :
      (b : Block) (n : ℤ)
      → get_block bc.db common ≡ ok (some b)
      → b.head.number ≡ some n
      → Returns (head_at crypto bc common)
  unfolding head_at
  head_at-ok b n g e =
      Returns-if (same_bytes common (hash crypto bc.genesis_block)) _ _ (_, refl)
        (Returns-bind (get_block bc.db common) _ (some b) g
          (Returns-bind (number_of b) _ (number_of-eq b n e).0 (number_of-eq b n e).1 (_, refl)))

  reset_till_block_hash-ok :
      (last_block b : Block) (n : ℤ)
      → bc.current_block ≡ some last_block
      → get_block bc.db common ≡ ok (some b)
      → b.head.number ≡ some n
      → Returns (reset_till_block_hash crypto bc common)
  unfolding reset_till_block_hash
  reset_till_block_hash-ok last_block b n is_head g e =
      let (moved, h) = head_at-ok b n g e in
      Returns-bind (head_at crypto bc common) _ moved h (
        Returns-bind (or_panic bc.current_block) _ last_block
          (or_panic-eq bc.current_block last_block is_head) (_, refl))

  -- FindCanonicalChain ends, with one more round than there are blocks in front of the common
  -- block on the way back from the current one, if the current block is stored and the common
  -- block is stored and numbered. It says that the chain is kept exactly if the incoming blocks up
  -- to the common one are not of more difficulty, uncles included, than the blocks on that way.
  pub find_canonical_chain-Way :
      (k : ℕ) (z : ℤ) (h : List ℕ) (b c : Block) (n : ℤ) (blocks : List Block)
      → Way crypto bc.db common k z h
      → bc.current_block ≡ some b
      → get_block bc.db h ≡ ok (some b)
      → get_block bc.db common ≡ ok (some c)
      → c.head.number ≡ some n
      → (bc2 : BlockChain) × (find_canonical_chain crypto (suc k) bc blocks common
          ≡ ok (not (ltb_ℤ z (incoming_difficulty crypto blocks common)), bc2))
  unfolding find_canonical_chain
  find_canonical_chain-Way k z h b c n blocks w is_head gb gc e =
      let (moved, r) = reset_till_block_hash-ok b c n is_head gc e in
      let (bc2, done) =
        chosen (ltb_ℤ z (incoming_difficulty crypto blocks common))
          (do m ← reset_till_block_hash crypto bc common; ok (false, m)) bc moved
          (bind-ok (reset_till_block_hash crypto bc common) _ moved r) in
      (
        bc2,
        bind-ok (current_difficulty crypto (suc k) bc.db bc.current_block common) _ z known ∙ done,
      )
    where
      known : current_difficulty crypto (suc k) bc.db bc.current_block common ≡ ok z
      known =
          subst (λ o. current_difficulty crypto (suc k) bc.db o common ≡ ok z) (sym is_head)
            (current_difficulty-Way crypto bc.db common k z h (suc k) b w gb (omega arith))
