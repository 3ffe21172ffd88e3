-- ===== src/Ethchain/Chain/Walks.antt =====
-- Walks along the parents of the stored blocks.
use eth_go.Common.{
  ℕ, zero, suc, ◌+◌, ◌-◌, ◌%◌, ◌^◌, ◌≤◌, ◌<◌, ◌≡◌, refl, ap, ◌∙◌, sym, arith, List, [], ◌∷◌, take,
  false, ==_iff, lt→ltb, ◌≢◌, Bool-cases, inl, inr, ◌>>=◌, ok, some, ◌==◌,
}
use eth_go.Common.Int.{pos}
use eth_go.Ethchain.Transaction.{Crypto}
use eth_go.Ethchain.Block.{Block, hash}
use eth_go.Ethchain.Chain.{
  Db, get_block, hashes_from, get_chain_hashes_from_hash, block_by_number, number_of, checked,
}

module _ (crypto : Crypto) where
  -- The store has the chain of the blocks with these hashes, from a hash back to the genesis block,
  -- each numbered one more than its parent.
  pub data Linked (db : Db) : ℕ → List ℕ → List (List ℕ) → Type 0 where
    at_genesis :
        (h : List ℕ) (b : Block)
        → get_block db h ≡ ok (some b)
        → hash crypto b ≡ h
        → b.head.number ≡ some (pos 0)
        → Linked db 0 h (h ∷ [])
    after :
        (n : ℕ) (h : List ℕ) (b : Block) (hs : List (List ℕ))
        → get_block db h ≡ ok (some b)
        → hash crypto b ≡ h
        → b.head.number ≡ some (pos (suc n))
        → Linked db n b.head.prev_hash hs
        → Linked db (suc n) h (h ∷ hs)

  take-nil : {A : Type 0} (max : ℕ) (xs : List A) → xs ≡ [] → take max xs ≡ []
  take-nil zero xs h = refl
  take-nil (suc max) xs h = rw h refl

  -- The block under the first hash is stored.
  stored :
      (db : Db) (n : ℕ) (h : List ℕ) (hs : List (List ℕ))
      → Linked db n h hs
      → (b : Block) × (get_block db h ≡ ok (some b))
        × (hash crypto b ≡ h)
        × (b.head.number ≡ some (pos n))
  stored db _ _ _ (at_genesis h b g eh en) = (b, g, eh, en)
  stored db _ _ _ (after n h b hs g eh en l) = (b, g, eh, en)

  hashes_from-Linked :
      (db : Db) (n : ℕ) (h : List ℕ) (hs : List (List ℕ)) (max : ℕ)
      → Linked db n h hs
      → (do b ← get_block db h; hashes_from crypto max db b) ≡ ok (take max hs)
  unfolding hashes_from
  hashes_from-Linked db n h hs zero l = let (b, g, eh, en) = stored db n h hs l in rw g refl
  hashes_from-Linked db _ _ _ (suc max) (at_genesis h b g eh en) =
      rw (g, eh, en) (ap (λ t. ok (h ∷ t)) (sym (take-nil max [] refl)))
  hashes_from-Linked db _ _ _ (suc max) (after n h b hs g eh en l) =
      rw
        (
          g,
          eh,
          en,
          hashes_from-Linked db n b.head.prev_hash hs max l,
          lt→ltb 0 (suc n + 0) (omega arith),
        )
        refl

  -- If the store has a chain of blocks from a hash back to the genesis block, each numbered one
  -- more than its parent, then GetChainHashesFromHash gives the hashes of that chain from there
  -- back, as many as were asked for at most.
  pub get_chain_hashes_from_hash-Linked :
      (db : Db) (n : ℕ) (h : List ℕ) (hs : List (List ℕ)) (max : ℕ)
      → Linked db n h hs
      → get_chain_hashes_from_hash crypto db h max ≡ ok (take max hs)
  unfolding get_chain_hashes_from_hash
  get_chain_hashes_from_hash-Linked db n h hs max l =
      let (b, g, eh, en) = stored db n h hs l in rw g (rw g at (hashes_from-Linked db n h hs max l))

number_of-pos : (b : Block) (n : ℕ) → b.head.number ≡ some (pos n) → n < 2 ^ 64 → number_of b ≡ ok n
number_of-pos b n h lt = rw h (ap ok (◌%◌-small n lt))
  where
    ◌%◌-small : (n : ℕ) → n < 2 ^ 64 → n % 2 ^ 64 ≡ n
    ◌%◌-small n h = omega arith

checked_same : (b : Block) (num : ℕ) → checked num b num ≡ some b
checked_same b num = ground arith

-- One round of the loop.
found_here :
    (db : Db) (b : Block) (num fuel : ℕ)
    → b.head.number ≡ some (pos num)
    → num < 2 ^ 64
    → block_by_number (suc fuel) db (some b) num ≡ ok (some b)
unfolding block_by_number
found_here db b num fuel h lt =
    rw (number_of-pos b num h lt, (==_iff num num).1 refl) (ap ok (checked_same b num))

not_here :
    (db : Db) (b : Block) (num fuel n : ℕ)
    → b.head.number ≡ some (pos n)
    → n < 2 ^ 64
    → (n == num) ≡ false
    → block_by_number (suc fuel) db (some b) num
      ≡ (do parent ← get_block db b.head.prev_hash; block_by_number fuel db parent num)
unfolding block_by_number
not_here db b num fuel n h lt ne = rw (number_of-pos b n h lt, ne) refl

module _ (crypto : Crypto) (db : Db) where
  -- The block that is found.
  abbrev Found : ℕ → ℕ → List ℕ → Type 0
  Found fuel num h =
      (c : Block) × ((do b ← get_block db h; block_by_number fuel db b num) ≡ ok (some c))
      × (c.head.number ≡ some (pos num))

  here :
      (h : List ℕ) (b : Block) (num fuel : ℕ)
      → get_block db h ≡ ok (some b)
      → b.head.number ≡ some (pos num)
      → num < 2 ^ 64
      → Found (suc fuel) num h
  here h b num fuel g en lt = (b, rw g (found_here db b num fuel en lt), en)

  block_by_number-walk :
      (n : ℕ) (h : List ℕ) (hs : List (List ℕ)) (num fuel : ℕ)
      → Linked crypto db n h hs
      → n < 2 ^ 64
      → num ≤ n
      → n - num < fuel
      → Found fuel num h
  block_by_number-walk n h hs num zero l lt le f = absurd (omega arith)
  block_by_number-walk _ _ _ num (suc fuel) (at_genesis h b g eh en) lt le f =
      here h b num fuel g (en ∙ ap (λ m. some (pos m)) (omega arith)) (omega arith)
  block_by_number-walk _ _ _ num (suc fuel) (after n h b hs g eh en l) lt le f =
      elim (Bool-cases (suc n == num)) [
        | inl e ↦
            here h b num fuel g (en ∙ ap (λ m. some (pos m)) ((==_iff (suc n) num).0 e))
              (omega arith)
        | inr e ↦
            let (c, found, numbered) =
              block_by_number-walk n b.head.prev_hash hs num fuel l (omega arith) (smaller n e le)
                (sooner n e le f) in
            (c, rw g (not_here db b num fuel (suc n) en lt e ∙ found), numbered)
      ]
    where
      differ : (n : ℕ) → (suc n == num) ≡ false → suc n ≢ num
      differ n e = ground arith

      smaller : (n : ℕ) → (suc n == num) ≡ false → num ≤ suc n → num ≤ n
      smaller n e le = ground arith

      sooner :
          (n : ℕ) → (suc n == num) ≡ false → num ≤ suc n → suc n - num < suc fuel → n - num < fuel
      sooner n e le f = ground arith

  -- On such a chain, below number 2^64, GetBlockByNumber finds a block of the number asked for, if
  -- that is not above the number of the current block, in one round more than the difference of
  -- the two.
  pub block_by_number-Linked :
      (n : ℕ) (h : List ℕ) (hs : List (List ℕ)) (num : ℕ) (b : Block)
      → Linked crypto db n h hs
      → get_block db h ≡ ok (some b)
      → n < 2 ^ 64
      → num ≤ n
      → (c : Block) × (block_by_number (suc (n - num)) db (some b) num ≡ ok (some c))
        × (c.head.number ≡ some (pos num))
  block_by_number-Linked n h hs num b l g lt le =
      let (c, found, numbered) =
        block_by_number-walk n h hs num (suc (n - num)) l lt le (omega arith) in
      (c, rw g at found, numbered)
