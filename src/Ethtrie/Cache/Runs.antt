-- ===== src/Ethtrie/Cache/Runs.antt =====
-- The theorems on the cache at concrete inputs.
use eth_go.Common.{same_bytes}
use eth_go.Ethutil.Rlp.{encode, encode_bytes, is_direct}
use eth_go.Common.{ℕ, ◌≡◌, refl, arith, List, [], ◌∷◌, true, ok, lookup, none}
use eth_go.Ethutil.Item.{Item, str}
use eth_go.Ethutil.Rlp.RoundTrip.{decoded}
use eth_go.Ethtrie.Cache.{Cache, Node, new_cache, get, commit}
use eth_go.Ethtrie.Cache.Laws.{value_read, get-commit}

abbrev sha3 : List ℕ → List ℕ
sha3 b = 7 ∷ b

abbrev dog : Item
dog = str (100 ∷ 111 ∷ 103 ∷ [])

abbrev dirty_dog : Node
dirty_dog = record { value = dog; dirty = true }

abbrev one_node : Cache
one_node = record { nodes = (1 ∷ [], dirty_dog) ∷ []; db = []; is_dirty = true }

get-commit_example :
    (value_read (get (new_cache (commit one_node).db) (1 ∷ [])) ≡ ok (decoded dog))
    × ((q : List ℕ)
        → lookup one_node.nodes q ≡ none
        → value_read (get (new_cache (commit one_node).db) q) ≡ value_read (get (new_cache []) q))
unfolding lookup same_bytes encode encode_bytes is_direct
get-commit_example = get-commit one_node (1 ∷ []) dirty_dog refl refl refl tt (omega arith)
