-- ===== src/Ethtrie/Trie/Delete.antt =====
-- ethtrie/trie.go: `deleteState`.
use eth_go.Common.{
  ℕ, zero, suc, ◌+◌, List, [], ◌∷◌, ◌++◌, Bool, true, false, ◌==◌, if◌then◌else◌, length, drop,
  Result, ok, out_of_fuel, ◌>>=◌, index, slice as slice_of,
}
use eth_go.Common.Int.{pos}
use eth_go.Ethutil.Item.{Item, Items, nil, cons, str, slice, items_of}
use eth_go.Ethutil.Value.{new_value, is_nil, len, get, str_of, item_at}
use eth_go.Ethtrie.Encoding.{compact_decode, compact_hex_decode}
use eth_go.Ethtrie.Slice.{compare_int_slice}
use eth_go.Ethtrie.Cache.{Cache, put}
use eth_go.Ethtrie.Trie.{
  Trie, Made, empty_str, set_item, copy_children, get_node, put_short, set_root,
}

-- `amount`: -1, an index, or -2.
pub data Amount : Type 0 where
  nothing : Amount
  only : ℕ → Amount
  several : Amount

-- `x == ""`: of the empty byte slice it is false, which is of another type.
unfoldable pub is_empty_str : Item → Bool
is_empty_str (str []) = true
is_empty_str _ = false

abbrev pub one_more : ℕ → Amount → Amount
one_more i nothing = only i
one_more i (only j) = several
one_more i several = several

-- The loop over the children that finds the only one, if there is just one.
unfoldable pub amount_from : Items → ℕ → Amount → Amount
unfolding is_empty_str
amount_from nil i a = a
amount_from (cons x xs) i a = amount_from xs (i + 1) (if is_empty_str x then a else one_more i a)

module _ (sha3 : List ℕ → List ℕ) where
  -- `child`, with its value as it stands in the list, takes the place of a branch that has no other.
  unfoldable pub pull_up : Cache → ℕ → Item → Made
  unfolding get_node put_short
  pull_up c i x = do
    (child, c1) ← get_node c x
    l ← len child
    let joined = do
      k ← compact_decode (str_of (get child (pos 0)))
      put_short sha3 c1 (i ∷ k) (str (str_of (get child (pos 1))))
    let neither = ok (put sha3 c1 (slice nil))
    if l == 17 then put_short sha3 c1 (i ∷ []) x else if l == 2 then joined else neither

  unfoldable pub shrink : Cache → Items → Amount → Made
  unfolding pull_up
  shrink c xs nothing = ok (put sha3 c (slice xs))
  shrink c xs several = ok (put sha3 c (slice xs))
  shrink c xs (only i) =
      if i == 16 then put_short sha3 c (16 ∷ []) (item_at xs 16) else pull_up c i (item_at xs i)

  -- The case of a branch; `delete` is the recursive call.
  unfoldable pub delete_branch : (Cache → Item → List ℕ → Made) → Cache → Item → List ℕ → Made
  unfolding shrink amount_from
  delete_branch delete c current key = do
    let xs = copy_children 17 current 0
    nibble ← index key 0
    (child, c1) ← delete c (item_at xs nibble) (drop 1 key)
    ys ← set_item xs nibble child
    shrink c1 ys (amount_from ys 0 nothing)

  -- The case of a node of two items, behind the test whether its key is the whole one.
  unfoldable pub delete_below :
      (Cache → Item → List ℕ → Made) → Cache → Item → List ℕ → List ℕ → Made
  delete_below delete c current k key = do
    (hash, c1) ← delete c (get current (pos 1)) (drop (length k) key)
    (child, c2) ← get_node c1 hash
    l ← len child
    let joined = do
      k' ← compact_decode (str_of (get child (pos 0)))
      put_short sha3 c2 (k ++ k') (get child (pos 1))
    let kept = ok (put sha3 c2 (slice (items_of (str (str_of (get current (pos 0))) ∷ hash ∷ []))))
    if l == 2 then joined else kept

  unfoldable pub delete_short : (Cache → Item → List ℕ → Made) → Cache → Item → Item → List ℕ → Made
  unfolding delete_below
  delete_short delete c node current key = do
    k ← compact_decode (str_of (get current (pos 0)))
    let below = delete_below delete c current k key
    let part = do
      front ← slice_of key 0 (length k)
      if compare_int_slice front k then below else ok (node, c)
    if compare_int_slice k key then ok (empty_str, c) else part

  unfoldable pub delete_state : ℕ → Cache → Item → List ℕ → Made
  unfolding get_node delete_short delete_branch
  delete_state zero c node key = out_of_fuel
  delete_state (suc fuel) c node key = do
    let inner = do
      (current, c1) ← get_node c node
      l ← len current
      let short = delete_short (delete_state fuel) c1 node current key
      let branch = delete_branch (delete_state fuel) c1 current key
      if l == 2 then short else branch
    let not_nil = do l ← len (new_value node); if l == 0 then ok (empty_str, c) else inner
    if length key == 0
        then ok (empty_str, c)
        else if is_nil node
        then ok (empty_str, c)
        else not_nil

  unfoldable pub delete_key : ℕ → Trie → List ℕ → Result Trie
  unfolding delete_state set_root
  delete_key fuel t key = do
    r ← delete_state fuel t.cache t.root (compact_hex_decode key)
    ok (set_root sha3 t r)
