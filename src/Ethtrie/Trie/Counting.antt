-- ===== src/Ethtrie/Trie/Counting.antt =====
-- The count of children by which `deleteState` decides whether a branch is left with one.
use eth_go.Common.{
  ℕ, zero, suc, ◌+◌, ◌≤◌, ◌<◌, ◌≡◌, refl, ap, arith, List, [], ◌∷◌, false, if◌then◌else◌,
  Bool-cases, inl, inr, Result, ok, panic, out_of_fuel, ◌>>=◌,
}
use eth_go.Common.Int.{pos}
use eth_go.Ethutil.Item.{
  Item, Items, nil, cons, num, byte, big, bytes, str, slice, value, other, length_items,
}
use eth_go.Ethutil.Rlp.RoundTrip.{decoded, decoded_bytes, IsEncodable, AreEncodable}
use eth_go.Ethutil.Value.{get, item_at, is_nil}
use eth_go.Ethutil.Value.Reads.{get-decoded}
use eth_go.Ethtrie.Trie.{empty_str, set_item, copy_children}
use eth_go.Ethtrie.Trie.Delete.{nothing, only, several, is_empty_str, amount_from}

-- How many children are not the empty string.
unfoldable pub taken : Items → ℕ
taken nil = 0
taken (cons x xs) = if is_empty_str x then taken xs else suc (taken xs)

amount_from-several : (xs : Items) (i : ℕ) → amount_from xs i several ≡ several
unfolding amount_from
amount_from-several nil i = refl
amount_from-several (cons x xs) i = elim (Bool-cases (is_empty_str x)) [
  | inl e ↦ rw e (amount_from-several xs (i + 1))
  | inr e ↦ rw e (amount_from-several xs (i + 1))
]

amount_from-only : (xs : Items) (i j : ℕ) → 0 < taken xs → amount_from xs i (only j) ≡ several
unfolding amount_from taken
amount_from-only nil i j h = absurd (omega arith)
amount_from-only (cons x xs) i j h =
    ground (arith, amount_from-only xs (i + 1) j, amount_from-several xs (i + 1))

-- With two children or more the loop finds several.
amount_from-nothing : (xs : Items) (i : ℕ) → 1 < taken xs → amount_from xs i nothing ≡ several
unfolding amount_from taken
amount_from-nothing nil i h = absurd (omega arith)
amount_from-nothing (cons x xs) i h =
    ground (arith, amount_from-nothing xs (i + 1), amount_from-only xs (i + 1) i)

abbrev prepend : Item → Result Items → Result Items
prepend y r = do zs ← r; ok (cons y zs)

prepend_ok :
    (y : Item) (r : Result Items) (ys : Items)
    → prepend y r ≡ ok ys
    → (zs : Items) × (r ≡ ok zs) × (ys ≡ cons y zs)
prepend_ok y (ok zs) ys h = (zs, refl, cc)
prepend_ok y panic ys h = absurd (cc)
prepend_ok y out_of_fuel ys h = absurd (cc)

-- A write takes one child away at most.
taken-set_item :
    (xs ys : Items) (i : ℕ) (x : Item) → set_item xs i x ≡ ok ys → taken xs ≤ suc (taken ys)
unfolding set_item taken
taken-set_item nil ys i x h = absurd (cc)
taken-set_item (cons y xs) ys zero x h = let same : ys ≡ cons x xs = cc in rw same (ground arith)
taken-set_item (cons y xs) ys (suc i) x h =
    let (zs, e, same) = prepend_ok y (set_item xs i x) ys h in
    rw same (ground (arith, taken-set_item xs zs i x e))

taken-copy_children :
    (k : ℕ) (node : Item) (i : ℕ)
    → ((j : ℕ)
        → j < i + k
        → (is_nil (get node (pos j)) ≡ false) × (is_empty_str (get node (pos j)) ≡ false))
    → taken (copy_children k node i) ≡ k
unfolding taken copy_children
taken-copy_children zero node i h = refl
taken-copy_children (suc k) node i h =
    let (a, b) = h i (omega arith) in
    rw (a, b) (ap suc (taken-copy_children k node (i + 1) (λ j l. h j (omega arith))))

abbrev IsThere : Item → Type 0
IsThere x = (is_nil x ≡ false) × (is_empty_str x ≡ false)

decoded_bytes-IsThere : (t : List ℕ) → IsThere (decoded_bytes t)
unfolding decoded_bytes is_nil is_empty_str
decoded_bytes-IsThere [] = (refl, refl)
decoded_bytes-IsThere (b ∷ []) = (ground arith, ground arith)
decoded_bytes-IsThere (b ∷ c ∷ t) = (refl, refl)

AreEncodable-item_at :
    (xs : Items) (i : ℕ) → AreEncodable xs → i < length_items xs → IsEncodable (item_at xs i)
unfolding item_at
AreEncodable-item_at nil i h lt = absurd (omega arith)
AreEncodable-item_at (cons x xs) zero (hx, h) lt = hx
AreEncodable-item_at (cons x xs) (suc i) (hx, h) lt = AreEncodable-item_at xs i h (omega arith)

decoded-IsThere : (x : Item) → IsEncodable x → IsThere (decoded x)
unfolding decoded is_nil is_empty_str
decoded-IsThere (num k z) h = decoded_bytes-IsThere _
decoded-IsThere (byte b) h = decoded_bytes-IsThere _
decoded-IsThere (big z) h = decoded_bytes-IsThere _
decoded-IsThere (bytes t) h = decoded_bytes-IsThere t
decoded-IsThere (str t) h = decoded_bytes-IsThere t
decoded-IsThere (value v) h = decoded-IsThere v h
decoded-IsThere other h = absurd h
decoded-IsThere _ h = (refl, refl)

-- Where a branch of 17 children has been read from the database, the loop finds several children after
-- any one of them is taken away, even if all others are empty: an empty child is then an empty byte
-- slice, which is not the empty string.
pub amount_from-decoded :
    (xs ys : Items) (i : ℕ)
    → length_items xs ≡ 17
    → AreEncodable xs
    → set_item (copy_children 17 (decoded (slice xs)) 0) i empty_str ≡ ok ys
    → amount_from ys 0 nothing ≡ several
amount_from-decoded xs ys i l enc h =
    let all : taken (copy_children 17 (decoded (slice xs)) 0) ≡ 17 =
      taken-copy_children 17 (decoded (slice xs)) 0 (λ j lt.
        rw (get-decoded xs j enc (omega arith))
          (decoded-IsThere (item_at xs j) (AreEncodable-item_at xs j enc (omega arith)))) in
    amount_from-nothing ys 0
      (omega (arith, taken-set_item (copy_children 17 (decoded (slice xs)) 0) ys i empty_str h))
