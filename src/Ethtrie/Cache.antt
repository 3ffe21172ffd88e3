-- ===== src/Ethtrie/Cache.antt =====
-- ethtrie/trie.go: the cache of nodes over the database. A node is found under its hash.
pub mod Laws
mod Runs
use eth_go.Common.{
  ℕ, ◌<◌, List, [], ◌∷◌, Bool, true, false, not, ltb, leb, ◌||◌, if◌then◌else◌, length, Result, ok,
  ◌>>=◌, Option, none, some, lookup, insert, delete,
}
use eth_go.Ethutil.Item.{Item, bytes}
use eth_go.Ethutil.Value.{new_value, encode_value, new_value_from_bytes}

-- `Key` is the key in the map.
pub record Node : Type 0 where
  pub value : Item
  pub dirty : Bool

-- `db` is what the database has.
pub record Cache : Type 0 where
  pub nodes : List (List ℕ × Node)
  pub db : List (List ℕ × List ℕ)
  pub is_dirty : Bool

unfoldable pub new_cache : List (List ℕ × List ℕ) → Cache
new_cache db = record { nodes = []; db = db; is_dirty = false }

-- `Sha3Bin` is a parameter.
unfoldable pub put_value : (List ℕ → List ℕ) → Cache → Item → Bool → Item × Cache
put_value sha3 c v force =
    let enc = encode_value (new_value v) in
    let sha = sha3 enc in
    if leb 32 (length enc) || force
    then (
      bytes sha,
      record c {
        nodes = insert c.nodes sha (record { value = new_value v; dirty = true });
        is_dirty = true;
      },
    )
    else (v, c)

unfoldable pub put : (List ℕ → List ℕ) → Cache → Item → Item × Cache
unfolding put_value
put sha3 c v = put_value sha3 c v false

-- No bytes for a missing key.
abbrev pub db_get : Option (List ℕ) → List ℕ
db_get none = []
db_get (some data') = data'

-- What the database has is kept as a clean node.
unfoldable pub get_cached : Cache → List ℕ → Option Node → Result (Item × Cache)
get_cached c key (some n) = ok (n.value, c)
get_cached c key none = do
  value ← new_value_from_bytes (db_get (lookup c.db key))
  ok (value, record c { nodes = insert c.nodes key (record { value = value; dirty = false }) })

unfoldable pub get : Cache → List ℕ → Result (Item × Cache)
unfolding get_cached
get c key = get_cached c key (lookup c.nodes key)

unfoldable pub delete_node : Cache → List ℕ → Cache
delete_node c key = record c { nodes = delete c.nodes key; db = delete c.db key }

-- The loop of `Commit`: the database, and the nodes, which are clean behind it.
unfoldable pub commit_nodes : List (List ℕ × Node) → List (List ℕ × List ℕ) → List (List ℕ × List ℕ)
commit_nodes [] db = db
commit_nodes ((k, n) ∷ m) db =
    let rest = commit_nodes m db in if n.dirty then insert rest k (encode_value n.value) else rest

unfoldable pub clean_nodes : List (List ℕ × Node) → List (List ℕ × Node)
clean_nodes [] = []
clean_nodes ((k, n) ∷ m) = (k, record n { dirty = false }) ∷ clean_nodes m

unfoldable pub commit : Cache → Cache
unfolding commit_nodes clean_nodes
commit c =
    if c.is_dirty
    then (record {
      nodes = if ltb 200 (length c.nodes) then [] else clean_nodes c.nodes;
      db = commit_nodes c.nodes c.db;
      is_dirty = false;
    })
    else c

-- The loop of `Undo`.
unfoldable pub drop_dirty : List (List ℕ × Node) → List (List ℕ × Node)
drop_dirty [] = []
drop_dirty ((k, n) ∷ m) = let rest = drop_dirty m in if n.dirty then rest else (k, n) ∷ rest

unfoldable pub undo : Cache → Cache
unfolding drop_dirty
undo c = record c { nodes = drop_dirty c.nodes; is_dirty = false }
