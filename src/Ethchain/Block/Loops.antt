-- ===== src/Ethchain/Block/Loops.antt =====
-- The loops of `RlpValueDecode` over what a decoder makes of a list.
use eth_go.Common.{
  ℕ, suc, ◌+◌, ◌≡◌, refl, ap, ◌∙◌, arith, List, [], ◌∷◌, map, length, Result, ok, All,
}
use eth_go.Common.Int.{pos}
use eth_go.Ethutil.Item.{Item, Items, slice, nil, cons, items_of, length_items}
use eth_go.Ethutil.Rlp.RoundTrip.{decoded, decoded_items, IsEncodable, AreEncodable}
use eth_go.Ethutil.Value.{get, len, is_nil}
use eth_go.Ethutil.Value.Reads.{get-decoded}
use eth_go.Ethchain.Block.{read_from, read_all}

same_place : (v : Item) (a b : ℕ) → a ≡ b → get v (pos a) ≡ get v (pos b)
same_place v a b h = ap (λ n. get v (pos n)) h

module _ {A : Type 0} (to : A → Item) where
  abbrev pub items : List A → Items
  items xs = items_of (map to xs)

  pub items-AreEncodable :
      (xs : List A) → All (λ x. IsEncodable (to x)) xs → AreEncodable (items xs)
  items-AreEncodable [] h = tt
  items-AreEncodable (x ∷ xs) (hx, h) = (hx, items-AreEncodable xs h)

  length-decoded_items : (xs : List A) → length_items (decoded_items (items xs)) ≡ length xs
  unfolding decoded
  length-decoded_items [] = refl
  length-decoded_items (x ∷ xs) = ap suc (length-decoded_items xs)

  module _ {B : Type 0} (read : Item → Result B) (back : A → B) where
    -- An item that comes back.
    abbrev pub ComesBack : A → Type 0
    ComesBack x = IsEncodable (to x) × (read (decoded (to x)) ≡ ok (back x))

    read_from-decoded :
        (xs : List A) (v : Item) (i : ℕ)
        → ((j : ℕ) → get v (pos (i + j)) ≡ get (decoded (slice (items xs))) (pos j))
        → All ComesBack xs
        → read_from read v (length xs) i ≡ ok (map back xs)
    unfolding read_from get decoded
    read_from-decoded [] v i agree h = refl
    read_from-decoded (x ∷ xs) v i agree ((enc, hx), h) =
        rw
          (
            same_place v i (i + 0) (omega arith) ∙ (agree 0 ∙ first),
            hx,
            read_from-decoded xs v (suc i) later h,
          )
          refl
      where
        first : get (decoded (slice (items (x ∷ xs)))) (pos 0) ≡ decoded (to x)
        first = get-decoded (cons (to x) nil) 0 (enc, tt) (omega arith)

        later : (j : ℕ) → get v (pos (suc i + j)) ≡ get (decoded (slice (items xs))) (pos j)
        later j = same_place v (suc i + j) (i + suc j) (omega arith) ∙ agree (suc j)

    -- Every item is read, in its place.
    pub read_all-decoded :
        (xs : List A)
        → All ComesBack xs
        → read_all read (decoded (slice (items xs))) ≡ ok (map back xs)
    unfolding read_all decoded is_nil len
    read_all-decoded xs h = rw (length-decoded_items xs) (
        read_from-decoded xs (decoded (slice (items xs))) 0
          (λ j. same_place (decoded (slice (items xs))) (0 + j) j (omega arith)) h)
