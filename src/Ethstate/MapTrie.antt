-- ===== src/Ethstate/MapTrie.antt =====
-- An instance of what ethstate uses of the trie, for tests: a map without a root hash.
use eth_go.Common.{ℕ, List, [], Option, none, some, lookup, insert, delete}
use eth_go.Ethutil.Item.{str}
use eth_go.Ethstate.Trie.{TrieOps}

abbrev pub MapTrie : Type 0
MapTrie = List (List ℕ × List ℕ)

abbrev pub value_or_nothing : Option (List ℕ) → List ℕ
value_or_nothing none = []
value_or_nothing (some v) = v

abbrev pub map_trie : TrieOps MapTrie
map_trie = record {
  empty = [];
  at_root = λ r. [];
  root = λ t. str [];
  get = λ t k. value_or_nothing (lookup t k);
  update = insert;
  remove = delete;
  undo = λ t. t;
  sync = λ t. t;
  copy = λ t. t;
  rebuilt = λ t. none;
}
