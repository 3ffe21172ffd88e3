-- ===== src/Ethchain/Pool/Runs.antt =====
-- The theorems on the pool at concrete inputs.
use eth_go.Ethchain.Transaction.{sender}
use eth_go.Common.{insert, lookup, same_bytes, slice}
use eth_go.Ethstate.Accounts.{get_or_new_state_object, get_state_object}
use eth_go.Common.{ℕ, suc, ◌≤◌, refl, List, [], ◌∷◌, ◌++◌, true, false, replicate}
use eth_go.Common.Int.{pos}
use eth_go.Ethutil.Bytes.{address}
use eth_go.Ethstate.MapTrie.{MapTrie, map_trie}
use eth_go.Ethstate.Object.{new_state_object}
use eth_go.Ethstate.Accounts.{State, add_object}
use eth_go.Ethchain.Transaction.{Transaction, Crypto, new_transaction_message}
use eth_go.Ethchain.Pool.{TxPool, handle, remove_invalid}
use eth_go.Ethchain.Pool.Laws.{AreDistinct, handle-AreDistinct, remove_invalid-one}

abbrev one : List ℕ
one = replicate 19 0 ++ (1 ∷ [])

-- A curve on which every signature is of one key, whose address is `one`.
abbrev one_key : Crypto
one_key = record { sha3 = λ b. replicate 12 0 ++ b; sign = λ h k. h; recover = λ h s. 4 ∷ one }

abbrev none_yet : State MapTrie
none_yet = record {
  trie = [];
  state_objects = [];
  heap = λ h. new_state_object map_trie [];
  next = 0;
  codes = [];
}

abbrev known : State MapTrie
known = add_object none_yet one (new_state_object map_trie one)

abbrev nothing_sent : Transaction
nothing_sent = new_transaction_message one (pos 0) (pos 600) (pos 2) []

abbrev data_sent : Transaction
data_sent = new_transaction_message one (pos 0) (pos 600) (pos 2) (9 ∷ [])

abbrev no_txs : TxPool MapTrie
no_txs = record { txs = []; state = none_yet }

abbrev two_txs : TxPool MapTrie
two_txs = record { txs = nothing_sent ∷ data_sent ∷ []; state = known }

handle-AreDistinct_example : AreDistinct one_key (nothing_sent ∷ [])
unfolding handle new_transaction_message sender slice get_or_new_state_object get_state_object
    lookup new_state_object address
handle-AreDistinct_example =
    handle-AreDistinct map_trie one_key true no_txs
      (record { txs = nothing_sent ∷ []; state = known }) nothing_sent tt refl

-- Neither is valid where the chain has no block.
remove_invalid-one_example : 2 ≤ suc 1
unfolding remove_invalid sender slice get_or_new_state_object get_state_object lookup insert
    same_bytes address
remove_invalid-one_example =
    remove_invalid-one map_trie one_key false two_txs
      (record { txs = data_sent ∷ []; state = known }) refl
