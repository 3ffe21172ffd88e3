-- ===== src/Ethtrie/Trie/Runs.antt =====
-- The trie at concrete inputs, and the theorem on its counting.
use eth_go.Ethtrie.Trie.{copy_trie, sync_trie, undo_trie}
use eth_go.Ethtrie.Trie.Copies.{value_found, sync_trie-copy_trie}
use eth_go.Common.{true, List, ℕ, zero, suc, ◌≡◌, refl, [], ◌∷◌, replicate}
use eth_go.Ethutil.Item.{Items, cons, bytes, items_of}
use eth_go.Ethutil.Rlp.RoundTrip.{AreEncodable, decoded, decoded_bytes}
use eth_go.Ethutil.Value.{is_nil, get, item_at, new_value}
use eth_go.Ethtrie.Trie.{empty_str, empty_string_slice, set_item, copy_children}
use eth_go.Ethtrie.Trie.Delete.{amount_from, nothing, several}
use eth_go.Ethtrie.Trie.Single.{lookup_trie-update}
use eth_go.Ethtrie.Trie.{Trie, empty_str, new_trie, update, lookup_trie}
use eth_go.Common.{arith, ok}
use eth_go.Ethtrie.Trie.Counting.{amount_from-decoded}

-- One child among seventeen.
abbrev lone : Items
lone = cons (bytes (9 ∷ 9 ∷ [])) (empty_string_slice 16)

-- It as read from the database, with the second child taken away.
abbrev left : Items
left = cons (bytes (9 ∷ 9 ∷ [])) (cons empty_str (items_of (replicate 15 (bytes []))))

empties_encodable : (n : ℕ) → AreEncodable (empty_string_slice n)
unfolding empty_string_slice
empties_encodable zero = tt
empties_encodable (suc n) = (tt, empties_encodable n)

amount_from-decoded_example : amount_from left 0 nothing ≡ several
unfolding empty_string_slice decoded set_item copy_children is_nil get item_at new_value
    decoded_bytes
amount_from-decoded_example = amount_from-decoded lone left 1 refl (tt, empties_encodable 16) refl

-- A hash that does not tell anything apart is enough for one key.
lookup_trie-update_example :
    (t : Trie) × (update 2
        (λ b. replicate 32 7)
        (new_trie [] empty_str)
        (100 ∷ 111 ∷ [])
        (1 ∷ 2 ∷ [])
      ≡ ok t)
    × (lookup_trie 2 t (100 ∷ 111 ∷ []) ≡ ok (1 ∷ 2 ∷ [], t))
lookup_trie-update_example =
    lookup_trie-update (λ b. replicate 32 7) 0 [] (100 ∷ 111 ∷ []) (1 ∷ 2 ∷ []) (λ b. refl)
      (omega arith, (omega arith, tt))

-- A trie with one node that is not in the database.
abbrev unsaved : Trie
unsaved = record (new_trie [] (bytes (9 ∷ []))) {
  cache = record {
    nodes = (9 ∷ [], record { value = bytes (1 ∷ []); dirty = true }) ∷ [];
    db = [];
    is_dirty = true;
  };
}

sync_trie-copy_trie_example :
    ((fuel : ℕ) (key : List ℕ)
      → value_found (lookup_trie fuel (copy_trie unsaved) key)
        ≡ value_found (lookup_trie fuel unsaved key))
    × ((sync_trie (copy_trie unsaved)).cache.db ≡ [])
    × ((undo_trie (copy_trie unsaved)).root ≡ bytes (9 ∷ []))
unfolding new_trie
sync_trie-copy_trie_example = sync_trie-copy_trie unsaved
