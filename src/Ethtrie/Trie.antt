-- ===== src/Ethtrie/Trie.antt =====
-- ethtrie/trie.go: the trie. A node is a value, or the hash under which the cache has it. The
-- functions take the cache and return it, since a read may fill it; they recur on fuel, as a node may
-- hold any other.
pub mod Delete
pub mod Counting
pub mod Single
pub mod Copies
mod Runs
use eth_go.Common.{
  ℕ, zero, suc, ◌+◌, ◌-◌, ◌*◌, List, [], ◌∷◌, Bool, true, false, not, ltb, leb, ◌==◌, ◌||◌, ◌&&◌,
  if◌then◌else◌, length, drop, take, Result, ok, panic, out_of_fuel, ◌>>=◌, index,
  slice as slice_of, Option, none, some,
}
use eth_go.Common.Int.{pos}
use eth_go.Ethutil.Item.{Item, Items, nil, cons, nil_value, bytes, str, slice, items_of}
use eth_go.Ethutil.Value.{
  new_value, is_nil, len, get, str_of, bytes_of, new_value_from_bytes, is_list,
}
use eth_go.Ethtrie.Encoding.{compact_encode, compact_decode, compact_hex_decode}
use eth_go.Ethtrie.Slice.{compare_int_slice, matching_nibble_length}
use eth_go.Ethtrie.Cache.{Cache, put_value, put, new_cache, commit, undo, get as cache_get}

abbrev pub empty_str : Item
empty_str = str []

-- `EmptyStringSlice`
unfoldable pub empty_string_slice : ℕ → Items
empty_string_slice zero = nil
empty_string_slice (suc l) = cons empty_str (empty_string_slice l)

-- `slice[i] = x`
unfoldable pub set_item : Items → ℕ → Item → Result Items
set_item nil i x = panic
set_item (cons y ys) zero x = ok (cons x ys)
set_item (cons y ys) (suc i) x = do zs ← set_item ys i x; ok (cons y zs)

-- The loop that copies a node: `i` counts up to 17, and nil gives the empty string.
unfoldable pub copy_children : ℕ → Item → ℕ → Items
copy_children zero node i = nil
copy_children (suc rounds) node i =
    let cpy = get node (pos i) in
    cons (if is_nil cpy then empty_str else cpy) (copy_children rounds node (i + 1))

unfoldable pub get_node : Cache → Item → Result (Item × Cache)
get_node c node =
    let n = new_value node in
    let s = str_of n in
    if not (is_nil (get n (pos 0))) || length s == 0
    then ok (n, c)
    else if ltb (length s) 32
    then (do v ← new_value_from_bytes s; ok (v, c))
    else (do key ← bytes_of n; cache_get c key)

-- The node where a search ends: no key is left, or no node.
abbrev pub is_end : Item → List ℕ → Result Bool
is_end node key = do
  let of_length = do l ← len (new_value node); ok (l == 0)
  if length key == 0 || is_nil (new_value node) then ok true else of_length

unfoldable pub get_state : ℕ → Cache → Item → List ℕ → Result (Item × Cache)
unfolding get_node
get_state zero c node key = out_of_fuel
get_state (suc fuel) c node key = do
  end ← is_end node key
  let inner = do
    (current, c1) ← get_node c node
    l ← len current
    let short = do
      k ← compact_decode (str_of (get current (pos 0)))
      let follow = get_state fuel c1 (get current (pos 1)) (drop (length k) key)
      if leb (length k) (length key) && compare_int_slice k (take (length k) key)
          then follow
          else ok (empty_str, c1)
    let branch = do nibble ← index key 0; get_state fuel c1 (get current (pos nibble)) (drop 1 key)
    if l == 0
        then ok (empty_str, c1)
        else if l == 2
        then short
        else if l == 17
        then branch
        else panic
  if end then ok (node, c) else inner

-- What a function that makes a node returns.
abbrev pub Made : Type 0
Made = Result (Item × Cache)

module _ (sha3 : List ℕ → List ℕ) where
  -- A node with a key and a value, `[]interface{}{CompactEncode(key), value}`.
  unfoldable pub put_short : Cache → List ℕ → Item → Made
  put_short c key val = do
    k ← compact_encode key
    ok (put sha3 c (slice (items_of (str k ∷ val ∷ []))))

  -- The two nodes under a new branch; `insert` is the recursive call.
  unfoldable pub put_branch :
      (Cache → Item → List ℕ → Item → Made) → Cache → List ℕ → Item → List ℕ → Item → ℕ → Made
  put_branch insert c k v key val m = do
    (old, c1) ← insert c empty_str (drop (m + 1) k) v
    (new, c2) ← insert c1 empty_str (drop (m + 1) key) val
    i ← index k m
    j ← index key m
    xs ← set_item (empty_string_slice 17) i old
    ys ← set_item xs j new
    ok (put sha3 c2 (slice ys))

  -- The case of a node of two items, which stands for the key `k` and the value `v`.
  unfoldable pub insert_short :
      (Cache → Item → List ℕ → Item → Made) → Cache → List ℕ → Item → List ℕ → Item → Made
  unfolding put_short put_branch
  insert_short insert c k v key val =
      let m = matching_nibble_length key k in
      let deeper = insert c v (drop m key) val in
      let split = put_branch insert c k v key val m in
      if compare_int_slice k key then put_short c key val else (do
        (hash, c1) ← if m == length k then deeper else split
        if m == 0 then ok (hash, c1) else put_short c1 (take m key) hash)

  -- The case of a branch.
  unfoldable pub insert_branch :
      (Cache → Item → List ℕ → Item → Made) → Cache → Item → List ℕ → Item → Made
  insert_branch insert c current key val = do
    nibble ← index key 0
    (child, c1) ← insert c (get current (pos nibble)) (drop 1 key) val
    xs ← set_item (copy_children 17 current 0) nibble child
    ok (put sha3 c1 (slice xs))

  unfoldable pub insert_state : ℕ → Cache → Item → List ℕ → Item → Made
  unfolding get_node put_short insert_short insert_branch
  insert_state zero c node key val = out_of_fuel
  insert_state (suc fuel) c node key val = do
    let fresh = put_short c key val
    let inner = do
      (current, c1) ← get_node c node
      l ← len current
      let short = do
        k ← compact_decode (str_of (get current (pos 0)))
        insert_short (insert_state fuel) c1 k (get current (pos 1)) key val
      let branch = insert_branch (insert_state fuel) c1 current key val
      if l == 2 then short else branch
    let not_nil = do l ← len (new_value node); if l == 0 then fresh else inner
    if length key == 0 then ok (val, c) else if is_nil node then fresh else not_nil

pub record Trie : Type 0 where
  pub prev_root : Item
  pub root : Item
  pub cache : Cache

-- A root that is copied is the same value.
unfoldable pub new_trie : List (List ℕ × List ℕ) → Item → Trie
new_trie db root = record { prev_root = root; root = root; cache = new_cache db }

-- `Copy`: the nodes of the cache are copied, and its mark that some of them are dirty is not.
unfoldable pub copy_trie : Trie → Trie
unfolding new_trie
copy_trie t =
    let trie = new_trie t.cache.db t.root in
    record trie { cache = record trie.cache { nodes = t.cache.nodes } }

-- A string or a hash is the root; a node is put under its hash in any case.
unfoldable pub set_root : (List ℕ → List ℕ) → Trie → Item × Cache → Trie
set_root sha3 t (str s, c) = record t { root = str s; cache = c }
set_root sha3 t (bytes b, c) = record t { root = bytes b; cache = c }
set_root sha3 t (root, c) =
    let (h, c') = put_value sha3 c root true in record t { root = h; cache = c' }

unfoldable pub update : ℕ → (List ℕ → List ℕ) → Trie → List ℕ → List ℕ → Result Trie
unfolding insert_state set_root
update fuel sha3 t key val = do
  r ← insert_state sha3 fuel t.cache t.root (compact_hex_decode key) (str val)
  ok (set_root sha3 t r)

unfoldable pub lookup_trie : ℕ → Trie → List ℕ → Result (List ℕ × Trie)
unfolding get_state
lookup_trie fuel t key = do
  (v, c) ← get_state fuel t.cache t.root (compact_hex_decode key)
  ok (str_of (new_value v), record t { cache = c })

unfoldable pub sync_trie : Trie → Trie
sync_trie t = record t { cache = commit t.cache; prev_root = t.root }

unfoldable pub undo_trie : Trie → Trie
undo_trie t = record t { cache = undo t.cache; root = t.prev_root }
