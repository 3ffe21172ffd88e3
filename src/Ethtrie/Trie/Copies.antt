-- ===== src/Ethtrie/Trie/Copies.antt =====
-- A copy of a trie: what it answers, and what it writes to the database.
use eth_go.Common.{
  ℕ, zero, suc, ◌≡◌, refl, sym, ◌∙◌, List, Bool, true, false, if◌then◌else◌, ◌==◌, ◌||◌, ◌&&◌, not,
  ltb, leb, length, take, drop, index, Result, ok, panic, out_of_fuel, ◌>>=◌, Option, none, some,
  lookup,
}
use eth_go.Ethutil.Item.{Item}
use eth_go.Ethutil.Value.{len, get, new_value, str_of, bytes_of, is_nil, new_value_from_bytes}
use eth_go.Common.Int.{pos}
use eth_go.Ethtrie.Slice.{compare_int_slice}
use eth_go.Ethtrie.Encoding.{compact_decode, compact_hex_decode}
use eth_go.Ethtrie.Cache.{
  Cache, Node, db_get, get_cached, get as cache_get, new_cache, commit, undo,
}
use eth_go.Ethtrie.Trie.{
  Trie, get_node, get_state, is_end, lookup_trie, copy_trie, sync_trie, undo_trie, new_trie,
}

-- A cache without its mark.
abbrev clean : Cache → Cache
clean c = record c { is_dirty = false }

abbrev cleaned : Result (Item × Cache) → Result (Item × Cache)
cleaned r = do x ← r; ok (x.0, clean x.1)

cleaned-plain :
    {A : Type 0} (m : Result A) (k k' : A → Result (Item × Cache))
    → ((a : A) → k' a ≡ cleaned (k a))
    → (m >>= k') ≡ cleaned (m >>= k)
cleaned-plain (ok a) k k' h = h a
cleaned-plain panic k k' h = refl
cleaned-plain out_of_fuel k k' h = refl

cleaned-read :
    (r r' : Result (Item × Cache)) (k k' : Item × Cache → Result (Item × Cache))
    → r' ≡ cleaned r
    → ((v : Item) (c : Cache) → k' (v, clean c) ≡ cleaned (k (v, c)))
    → (r' >>= k') ≡ cleaned (r >>= k)
cleaned-read (ok (v, c)) r' k k' e h = rw e (h v c)
cleaned-read panic r' k k' e h = rw e refl
cleaned-read out_of_fuel r' k k' e h = rw e refl

cleaned-if :
    (b : Bool) (x y x' y' : Result (Item × Cache))
    → x' ≡ cleaned x
    → y' ≡ cleaned y
    → (if b then x' else y') ≡ cleaned (if b then x else y)
cleaned-if true x y x' y' h k = h
cleaned-if false x y x' y' h k = k

get_cached-clean :
    (c : Cache) (key : List ℕ) (o : Option Node)
    → get_cached (clean c) key o ≡ cleaned (get_cached c key o)
unfolding get_cached
get_cached-clean c key (some n) = refl
get_cached-clean c key none =
    cleaned-plain (new_value_from_bytes (db_get (lookup c.db key))) _ _ (λ value. refl)

get_node-clean : (c : Cache) (node : Item) → get_node (clean c) node ≡ cleaned (get_node c node)
unfolding get_node cache_get
get_node-clean c node =
    let n = new_value node in
    let s = str_of n in
    cleaned-if (not (is_nil (get n (pos 0))) || length s == 0) _ _ _ _ refl (
      cleaned-if (ltb (length s) 32) _ _ _ _
        (cleaned-plain (new_value_from_bytes s) _ _ (λ v. refl))
        (cleaned-plain (bytes_of n) _ _ (λ key. get_cached-clean c key (lookup c.nodes key))))

-- No read asks for the mark, and none sets it.
get_state-clean :
    (fuel : ℕ) (c : Cache) (node : Item) (key : List ℕ)
    → get_state fuel (clean c) node key ≡ cleaned (get_state fuel c node key)
unfolding get_state
get_state-clean zero c node key = refl
get_state-clean (suc fuel) c node key = cleaned-plain (is_end node key) _ _ λ end.
    cleaned-if end _ _ _ _ refl (
      cleaned-read (get_node c node) (get_node (clean c) node) _ _ (get_node-clean c node)
        λ current c1. cleaned-plain (len current) _ _ λ l. cleaned-if (l == 0) _ _ _ _ refl (
          cleaned-if (l == 2) _ _ _ _
            (cleaned-plain (compact_decode (str_of (get current (pos 0)))) _ _ λ k.
              cleaned-if (leb (length k) (length key) && compare_int_slice k (take (length k) key))
                _ _ _ _ (get_state-clean fuel c1 (get current (pos 1)) (drop (length k) key)) refl)
            (cleaned-if (l == 17) _ _ _ _
              (cleaned-plain (index key 0) _ _
                λ nibble. get_state-clean fuel c1 (get current (pos nibble)) (drop 1 key))
              refl)))

-- What a lookup returns, without what it leaves in the cache.
abbrev pub value_found : Result (List ℕ × Trie) → Result (List ℕ)
value_found r = do x ← r; ok x.0

lookup_value :
    (fuel : ℕ) (t : Trie) (key : List ℕ)
    → value_found (lookup_trie fuel t key)
      ≡ (do x ← get_state fuel t.cache t.root (compact_hex_decode key); ok (str_of (new_value x.0)))
unfolding lookup_trie
lookup_value fuel t key = outer (get_state fuel t.cache t.root (compact_hex_decode key))
  where
    outer :
        (r : Result (Item × Cache))
        → value_found (r >>= (λ x. ok (str_of (new_value x.0), record t { cache = x.1 })))
          ≡ (do x ← r; ok (str_of (new_value x.0)))
    outer (ok x) = refl
    outer panic = refl
    outer out_of_fuel = refl

-- A copy of a trie returns for every key what the trie returns, whatever its cache has; Undo takes
-- the copy back to the root that the trie had when it was copied; but Sync of the copy writes
-- nothing to the database, whatever nodes the copy has that are not there yet, as the mark of the
-- cache is not copied.
pub sync_trie-copy_trie :
    (t : Trie)
    → ((fuel : ℕ) (key : List ℕ)
        → value_found (lookup_trie fuel (copy_trie t) key) ≡ value_found (lookup_trie fuel t key))
      × ((sync_trie (copy_trie t)).cache.db ≡ t.cache.db)
      × ((undo_trie (copy_trie t)).root ≡ t.root)
unfolding copy_trie sync_trie undo_trie new_trie new_cache commit undo
sync_trie-copy_trie t = (
  λ fuel key.
      lookup_value fuel (copy_trie t) key
      ∙ (same (get_state fuel t.cache t.root (compact_hex_decode key))
            (get_state-clean fuel t.cache t.root (compact_hex_decode key))
          ∙ sym (lookup_value fuel t key)),
  refl,
  refl,
)
  where
    same :
        (r : Result (Item × Cache)) {r' : Result (Item × Cache)}
        → r' ≡ cleaned r
        → (do x ← r'; ok (str_of (new_value x.0))) ≡ (do x ← r; ok (str_of (new_value x.0)))
    same (ok x) e = rw e refl
    same panic e = rw e refl
    same out_of_fuel e = rw e refl
