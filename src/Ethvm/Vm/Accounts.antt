-- ===== src/Ethvm/Vm/Accounts.antt =====
-- ethvm/vm.go: the instructions that read and write the accounts of the state.
use eth_go.Common.{
  ℕ, List, [], ◌∷◌, ◌++◌, none, some, Result, ok, ◌>>=◌, get_elem?, set as set_at, length,
}
use eth_go.Common.Int.{ℤ, nat_abs}
use eth_go.Ethutil.Item.{big}
use eth_go.Ethutil.Bytes.{to_bytes}
use eth_go.Ethutil.Value.{big_int}
use eth_go.Ethstate.Trie.{TrieOps}
use eth_go.Ethstate.Object.{StateObject, set_storage, add_amount, mark_for_deletion}
use eth_go.Ethstate.Accounts.{write_object, get_or_new_state_object, get_balance}
use eth_go.Ethvm.Stack.{Stack, require, pop, popn, push as push_word}
use eth_go.Ethvm.Vm.{Message, World}
use eth_go.Ethvm.Vm.Cost.{get_storage, present, set_object_state}

-- `AddMessage`: the message is known by its place.
unfoldable pub add_message : {T : Type 0} → Message → World T → ℕ × World T
add_message msg w = (length w.messages, record w { messages = w.messages ++ (msg ∷ []) })

-- A write through the pointer to a message.
unfoldable pub change_message : {T : Type 0} → ℕ → (Message → Message) → World T → World T
change_message i f w = record w {
  messages = elim (get_elem? w.messages i) [
    | none ↦ w.messages
    | some msg ↦ set_at w.messages i (f msg)
  ];
}

-- `AddStorageChange`
unfoldable pub add_storage_change : List ℕ → Message → Message
add_storage_change addr msg = record msg {
  changed_addresses = msg.changed_addresses ++ (addr ∷ []);
}

-- A write through the pointer to an object.
abbrev pub change_object : {T : Type 0} → ℕ → (StateObject T → StateObject T) → World T → World T
change_object h f w = set_object_state w (write_object w.state h (f (w.state.heap h)))

abbrev pub word_bytes : ℤ → List ℕ
word_bytes z = to_bytes (nat_abs z)

unfoldable pub sstore_step : {T : Type 0} → ℕ → ℕ → Stack → World T → Result (Stack × World T)
unfolding require popn set_storage change_message add_storage_change
sstore_step object message st w = do
  _ ← require 2 st
  (val, loc, rest) ← popn st
  changed ← set_storage (w.state.heap object) loc (big val)
  let stored = change_object object (λ o. changed) w
  ok (rest, change_message message (add_storage_change (word_bytes loc)) stored)

module _ {T : Type 0} (ops : TrieOps T) where
  unfoldable pub sload_step : ℕ → Stack → World T → Result (Stack × World T)
  unfolding require pop get_storage big_int push_word
  sload_step object st w = do
    _ ← require 1 st
    (loc, rest) ← pop st
    (v, w') ← get_storage ops object loc w
    z ← big_int v
    val ← present z
    ok (push_word val rest, w')

  module _ (sha3 : List ℕ → List ℕ) where
    unfoldable pub balance_step : Stack → World T → Result (Stack × World T)
    unfolding require pop get_balance push_word
    balance_step st w = do
      _ ← require 1 st
      (addr, rest) ← pop st
      (balance, s) ← get_balance ops sha3 w.state (word_bytes addr)
      ok (push_word balance rest, set_object_state w s)

    -- The receiver gets the balance, which the closure's object keeps until it is deleted.
    unfoldable pub suicide_step : ℕ → Stack → World T → Result (World T)
    unfolding require pop get_or_new_state_object add_amount mark_for_deletion
    suicide_step object st w = do
      _ ← require 1 st
      (addr, rest) ← pop st
      (receiver, s) ← get_or_new_state_object ops sha3 w.state (word_bytes addr)
      let balance = (s.heap object).balance
      let paid = change_object receiver (λ o. add_amount o balance) (set_object_state w s)
      ok (change_object object mark_for_deletion paid)
