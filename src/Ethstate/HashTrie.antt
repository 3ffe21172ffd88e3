-- ===== src/Ethstate/HashTrie.antt =====
-- The interface that ethstate has to its tries, filled by the trie of ethtrie/trie.go. A read gives
-- nothing, and a write changes nothing, where the trie panics or has no fuel left, and a read keeps no
-- node that it loads; each trie has the database by itself, so that a new one sees none of the nodes that
-- another one has written. `rebuilt` is `ParanoiaCheck`, a parameter.
use eth_go.Common.{
  ℕ, suc, ◌≡◌, refl, ap, List, [], All, length, Option, Result, ok, panic, out_of_fuel,
}
use eth_go.Ethutil.Bytes.{IsByte}
use eth_go.Ethstate.Trie.{TrieOps}
use eth_go.Ethtrie.Trie.{
  Trie, empty_str, new_trie, update, lookup_trie, sync_trie, undo_trie, copy_trie,
}
use eth_go.Ethtrie.Trie.Delete.{delete_key}
use eth_go.Ethtrie.Trie.Single.{lookup_trie-update}
use eth_go.Ethtrie.Trie.Copies.{value_found, sync_trie-copy_trie}

abbrev or_else {ℓ} : {A : Type ℓ} → A → Result A → A
or_else a (ok b) = b
or_else a panic = a
or_else a out_of_fuel = a

module _ (fuel : ℕ) (sha3 : List ℕ → List ℕ) (db : List (List ℕ × List ℕ))
    (rebuilt : Trie → Option Trie) where
  abbrev pub hash_trie : TrieOps Trie
  hash_trie = record {
    empty = new_trie db empty_str;
    at_root = new_trie db;
    root = λ t. t.root;
    get = λ t k. or_else [] (value_found (lookup_trie fuel t k));
    update = λ t k v. or_else t (update fuel sha3 t k v);
    remove = λ t k. or_else t (delete_key sha3 fuel t k);
    undo = undo_trie;
    sync = sync_trie;
    copy = copy_trie;
    rebuilt = rebuilt;
  }

  -- A copy answers as the trie does.
  get-copy : (t : Trie) (k : List ℕ) → hash_trie.get (hash_trie.copy t) k ≡ hash_trie.get t k
  get-copy t k = ap (or_else []) ((sync_trie-copy_trie t).0 fuel k)

-- What is written to an empty trie is read back, under a hash of 32 bytes.
get-update :
    (fuel : ℕ) (sha3 : List ℕ → List ℕ) (db : List (List ℕ × List ℕ)) (rebuilt : Trie → Option Trie)
    (k v : List ℕ)
    → ((b : List ℕ) → length (sha3 b) ≡ 32)
    → All IsByte k
    → let ops = hash_trie (suc (suc fuel)) sha3 db rebuilt in
      ops.get (ops.update ops.empty k v) k ≡ v
get-update fuel sha3 db rebuilt k v h b =
    let (t, written, read) = lookup_trie-update sha3 fuel db k v h b in rw (written, read) refl
