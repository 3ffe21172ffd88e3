-- ===== src/Ethchain/Chain/Heads.antt =====
-- What adding a block and resetting the chain leave of it.
use eth_go.Common.{
  ℕ, suc, ◌≡◌, refl, ap, ◌∙◌, sym, List, ◌∷◌, length, Bool, true, false, All, Result, ok, Option,
  none, some, same_bytes, same_bytes_refl, lookup-delete, delete, Yields, yields, Yields-bind,
  Yields-ok, or_panic, subst, if◌then◌else◌,
}
use eth_go.Common.Int.{pos, ltb_ℤ}
use eth_go.Ethutil.Rlp.Total.{Fits}
use eth_go.Ethchain.Transaction.{Crypto}
use eth_go.Ethchain.Block.{Block, hash, rlp_encode}
use eth_go.Ethchain.Block.Headers.{normal_header, number_back}
use eth_go.Ethchain.Block.RoundTrip.{SoundBlock, normal_block, hash-normal_block}
use eth_go.Ethchain.Chain.{
  BlockChain, Db, get_block, add, reset_till_block_hash, head_at, number_of, find_canonical_chain,
  current_difficulty, incoming_difficulty,
}
use eth_go.Ethchain.Chain.Stored.{HashSize, get_block-add, get_block-add_other}
use eth_go.Ethchain.Chain.Walks.{Linked, at_genesis, after}

-- A hash that is not the new block's.
abbrev pub IsOther : Crypto → Block → List ℕ → Type 0
IsOther crypto block k = (length k ≡ 32) × (same_bytes (hash crypto block) k ≡ false)

module _ (crypto : Crypto) (bc : BlockChain) (block : Block) (size : HashSize crypto) where
  Linked-add_other :
      (n : ℕ) (h : List ℕ) (hs : List (List ℕ))
      → Linked crypto bc.db n h hs
      → All (IsOther crypto block) hs
      → Linked crypto (add crypto bc block).db n h hs
  Linked-add_other _ _ _ (at_genesis h b g eh en) ((len, ne), other) =
      at_genesis h b (get_block-add_other crypto bc block h size len ne ∙ g) eh en
  Linked-add_other _ _ _ (after n h b hs g eh en l) ((len, ne), other) =
      after n h b hs (get_block-add_other crypto bc block h size len ne ∙ g) eh en
        (Linked-add_other n b.head.prev_hash hs l other)

  -- A block that is added to a linked chain, on its last hash, makes it longer by one.
  pub Linked-add :
      (n : ℕ) (hs : List (List ℕ))
      → Linked crypto bc.db n block.head.prev_hash hs
      → All (IsOther crypto block) hs
      → SoundBlock block
      → Fits (rlp_encode block)
      → block.head.number ≡ some (pos (suc n))
      → Linked crypto (add crypto bc block).db (suc n) (hash crypto block) (hash crypto block ∷ hs)
  unfolding normal_block normal_header
  Linked-add n hs l other s fits number =
      after n (hash crypto block) (normal_block block) hs
        (get_block-add crypto bc block size s fits) (hash-normal_block crypto block s)
        (ap (λ z. some (number_back z)) number) (Linked-add_other n block.head.prev_hash hs l other)

get_block-deleted : (db : Db) (k : List ℕ) → get_block (delete db k) k ≡ ok none
unfolding get_block
get_block-deleted db k = rw (lookup-delete db k k, same_bytes_refl k) refl

module _ (crypto : Crypto) where
  -- The last hash is the hash of the head.
  pub record HoldsHead (bc : BlockChain) : Type 0 where
    pub head : Block
    pub is_head : bc.current_block ≡ some head
    pub is_hash : bc.last_block_hash ≡ hash crypto head

  -- After Add the last hash is the hash of the head.
  pub add-HoldsHead : (bc : BlockChain) (block : Block) → HoldsHead (add crypto bc block)
  unfolding add
  add-HoldsHead bc block = record { head = block; is_head = refl; is_hash = refl }

  if_Yields :
      {A : Type 0} (P : A → Type 0) (b : Bool) (x y : Result A)
      → Yields P x
      → Yields P y
      → Yields P (if b then x else y)
  if_Yields P true x y h k = h
  if_Yields P false x y h k = k

  head_at-HoldsHead : (bc : BlockChain) (h : List ℕ) → Yields HoldsHead (head_at crypto bc h)
  unfolding head_at
  head_at-HoldsHead bc h =
      if_Yields HoldsHead (same_bytes h (hash crypto bc.genesis_block)) _ _
        (yields _ (record { head = bc.genesis_block; is_head = refl; is_hash = refl }))
        (Yields-bind HoldsHead (get_block bc.db h) _ (λ b e1.
          Yields-bind HoldsHead (or_panic b) _ (λ return_to e2.
            Yields-bind HoldsHead (number_of return_to) _ (λ number e3.
              yields _ (record { head = return_to; is_head = refl; is_hash = refl })))))

  -- What a reset leaves: a head with its hash, and no block under the hash of the former head.
  record IsReset (before : BlockChain) (bc : BlockChain) : Type 0 where
    holds_head : HoldsHead bc
    last_block : Block
    was_head : before.current_block ≡ some last_block
    is_gone : get_block bc.db (hash crypto last_block) ≡ ok none

  or_panic-some : {A : Type 0} (o : Option A) (a : A) → or_panic o ≡ ok a → o ≡ some a
  or_panic-some none a h = absurd (cc)
  or_panic-some (some b) a h = cc

  same_head : (bc : BlockChain) (db : Db) → HoldsHead bc → HoldsHead (record bc { db = db })
  same_head bc db h = record { head = h.head; is_head = h.is_head; is_hash = h.is_hash }

  reset_till_block_hash-IsReset :
      (bc : BlockChain) (h : List ℕ) → Yields (IsReset bc) (reset_till_block_hash crypto bc h)
  unfolding reset_till_block_hash
  reset_till_block_hash-IsReset bc h = Yields-bind (IsReset bc) (head_at crypto bc h) _ (λ moved e1.
      Yields-bind (IsReset bc) (or_panic bc.current_block) _ (λ last_block e2. yields _ (record {
        holds_head =
            same_head moved _
              (Yields-ok HoldsHead moved (subst (Yields HoldsHead) e1 (head_at-HoldsHead bc h)));
        last_block = last_block;
        was_head = or_panic-some bc.current_block last_block e2;
        is_gone = get_block-deleted moved.db (hash crypto last_block);
      })))

  -- What the choice leaves: the chain as it was, or one that is reset.
  abbrev Chosen : BlockChain → Bool × BlockChain → Type 0
  Chosen bc (true, bc2) = bc2 ≡ bc
  Chosen bc (false, bc2) = IsReset bc bc2

  find_canonical_chain-Chosen :
      (fuel : ℕ) (bc : BlockChain) (blocks : List Block) (common : List ℕ)
      → Yields (Chosen bc) (find_canonical_chain crypto fuel bc blocks common)
  unfolding find_canonical_chain
  find_canonical_chain-Chosen fuel bc blocks common =
      Yields-bind (Chosen bc) (current_difficulty crypto fuel bc.db bc.current_block common) _
        (λ current e1.
          if_Yields (Chosen bc) (ltb_ℤ current (incoming_difficulty crypto blocks common)) _ _
            (Yields-bind (Chosen bc) (reset_till_block_hash crypto bc common) _ (λ moved e2.
              yields _ (
                Yields-ok (IsReset bc) moved
                  (subst (Yields (IsReset bc)) e2 (reset_till_block_hash-IsReset bc common)))))
            (yields _ refl))

  -- After ResetTillBlockHash returns, the last hash is the hash of the new current block, and no
  -- block is found by the hash of the former current block, even where the reset is to that block.
  pub reset_till_block_hash-get_block :
      (bc moved : BlockChain) (h : List ℕ)
      → reset_till_block_hash crypto bc h ≡ ok moved
      → HoldsHead moved
        × ((last_block : Block)
            → bc.current_block ≡ some last_block
            → get_block moved.db (hash crypto last_block) ≡ ok none)
  reset_till_block_hash-get_block bc moved h e =
      let r : IsReset bc moved =
        Yields-ok (IsReset bc) moved
          (subst (Yields (IsReset bc)) e (reset_till_block_hash-IsReset bc h)) in
      (
        r.holds_head,
        λ last_block was.
            subst (λ b. get_block moved.db (hash crypto b) ≡ ok none)
              (some_eq (sym r.was_head ∙ was)) r.is_gone,
      )
    where
      some_eq : {a b : Block} → some a ≡ some b → a ≡ b
      some_eq h = cc

  -- If the last hash of a chain is the hash of its current block, then it is so after
  -- FindCanonicalChain returns; and if that says that the chain is kept, the chain is as it was.
  pub find_canonical_chain-HoldsHead :
      (fuel : ℕ) (bc bc2 : BlockChain) (kept : Bool) (blocks : List Block) (common : List ℕ)
      → HoldsHead bc
      → find_canonical_chain crypto fuel bc blocks common ≡ ok (kept, bc2)
      → HoldsHead bc2 × (kept ≡ true → bc2 ≡ bc)
  find_canonical_chain-HoldsHead fuel bc bc2 kept blocks common hb e = by_case kept (
      Yields-ok (Chosen bc) (kept, bc2)
        (subst (Yields (Chosen bc)) e (find_canonical_chain-Chosen fuel bc blocks common)))
    where
      by_case : (kept : Bool) → Chosen bc (kept, bc2) → HoldsHead bc2 × (kept ≡ true → bc2 ≡ bc)
      by_case true c = (subst HoldsHead (sym c) hb, λ _. c)
      by_case false c = (c.holds_head, λ h. absurd (cc))
