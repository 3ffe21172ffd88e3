-- ===== src/Ethstate/Accounts/Runs.antt =====
-- States at concrete inputs, and the theorems on them.
use eth_go.Common.{same_bytes}
use eth_go.Ethutil.Bytes.{left_pad_bytes}
use eth_go.Common.{ℕ, ◌≤◌, ◌<◌, ◌≡◌, refl, List, [], ◌∷◌, false, ok, some, lookup, insert}
use eth_go.Common.Int.{pos}
use eth_go.Ethutil.Bytes.{address}
use eth_go.Ethstate.MapTrie.{MapTrie, map_trie}
use eth_go.Ethstate.Object.{StateObject, new_state_object, mark_for_deletion}
use eth_go.Ethstate.Accounts.{
  State, add_object, get_state_object, set_state, copy_state, get_balance,
}
use eth_go.Ethstate.Accounts.Snapshots.{set_state-copy_state}

abbrev hash : List ℕ → List ℕ
hash code = 7 ∷ code

abbrev nothing : State MapTrie
nothing = record {
  trie = [];
  state_objects = [];
  heap = λ h. new_state_object map_trie [];
  next = 0;
  codes = [];
}

-- The address 0x00...01.
abbrev one : List ℕ
one = address (1 ∷ [])

abbrev dying : StateObject MapTrie
dying =
    mark_for_deletion
      (record (new_state_object map_trie one) { balance = pos 5; nonce = 3; code = 1 ∷ [] })

abbrev with_one : State MapTrie
with_one = add_object nothing one dying

five : (get_balance map_trie hash with_one (0 ∷ 1 ∷ [])) ≡ ok (pos 5, with_one)
unfolding get_balance get_state_object lookup insert same_bytes address left_pad_bytes
    mark_for_deletion
five = refl

set_state-copy_state_example :
    let w = set_state nothing (copy_state map_trie with_one) in
    ((h' : ℕ) × (lookup w.state_objects one ≡ some h')
      × (w.heap h'
          ≡ record (with_one.heap 0) { addr = address (with_one.heap 0).addr; remove = false })
      × (0 ≤ h')
      × (h' < w.next))
    × ((q : ℕ) → q < 0 → w.heap q ≡ nothing.heap q)
    × (w.trie ≡ with_one.trie)
unfolding lookup insert same_bytes address left_pad_bytes
set_state-copy_state_example = set_state-copy_state map_trie with_one nothing one 0 refl
