-- ===== src/Ethchain/Transition/Runs.antt =====
-- A transition at concrete inputs, and the theorems on it.
use eth_go.Ethchain.Transaction.{is_contract_addr}
use eth_go.Ethchain.Transaction.{sender}
use eth_go.Common.{insert, same_bytes, slice}
use eth_go.Ethutil.Bytes.{left_pad_bytes}
use eth_go.Common.{
  ℕ, ◌≡◌, refl, arith, List, [], ◌∷◌, Result, ok, ◌>>=◌, Option, none, some, slice, insert,
  same_bytes, lookup,
}
use eth_go.Common.Int.{ℤ, pos, ◌*ℤ◌, ◌+ℤ◌, ◌-ℤ◌}
use eth_go.Ethutil.Bytes.{address, left_pad_bytes}
use eth_go.Ethstate.MapTrie.{MapTrie, map_trie}
use eth_go.Ethstate.Object.{
  StateObject, new_state_object, buy_gas, sub_amount, add_amount, refund_gas, set_balance,
}
use eth_go.Ethstate.Accounts.{
  State, add_object, copy_state, get_or_new_state_object, get_state_object,
}
use eth_go.Ethchain.Transaction.{Transaction, Crypto, sender, gas_value, new_transaction_message}
use eth_go.Ethchain.Transition.{
  Transition, Err, Eval, code_error, transition_state, refund_to, settle, balance_at,
}
use eth_go.Ethchain.Transition.Money.{money}
use eth_go.Ethchain.Transition.Conserved.{transition_state_conserves}
use eth_go.Ethchain.Transition.Failed.{refund_to-settle}

-- A curve on which every signature is of the key whose address is 0x00...01.
abbrev one_key : Crypto
one_key = record {
  sha3 = λ b. 0 ∷ 0 ∷ 0 ∷ 0 ∷ 0 ∷ 0 ∷ 0 ∷ 0 ∷ 0 ∷ 0 ∷ 0 ∷ 0 ∷ b;
  sign = λ h k. h;
  recover = λ h s. 4 ∷ 1 ∷ [];
}

abbrev account : ℕ → ℕ → StateObject MapTrie
account a z = record (new_state_object map_trie (a ∷ [])) { balance = pos z; gas_pool = pos 9000 }

abbrev none_yet : State MapTrie
none_yet = record { trie = []; state_objects = []; heap = λ h. account 0 0; next = 0; codes = [] }

-- The sender at handle 0, the receiver at 1, the coinbase at 2.
abbrev three : State MapTrie
three =
    add_object
      (add_object (add_object none_yet (address (1 ∷ [])) (account 1 5000)) (address (2 ∷ []))
        (account 2 0))
      (address (3 ∷ [])) (account 3 0)

abbrev begin : Transition MapTrie
begin = record { gas = pos 0; state = three; cb = some 2; rec = none; sen = none }

abbrev pay_seven : Transaction
pay_seven = new_transaction_message (2 ∷ []) (pos 7) (pos 600) (pos 2) (9 ∷ [])

abbrev idle : Eval MapTrie
idle u h code = ok (some [], u)

abbrev balances : Result (Option Err × Transition MapTrie) → Result (Option Err × List ℤ)
balances r = do (err, t) ← r; ok (err, balance_at t 0 ∷ balance_at t 1 ∷ balance_at t 2 ∷ [])

-- Of 600 units of gas 505 are used, at a price of 2.
settled :
    balances (transition_state map_trie one_key (3 ∷ []) pay_seven idle begin)
    ≡ ok (none, pos 3983 ∷ pos 7 ∷ pos 1010 ∷ [])
unfolding transition_state sender slice get_or_new_state_object get_state_object lookup insert
    same_bytes address left_pad_bytes new_state_object new_transaction_message gas_value ◌*ℤ◌
    buy_gas ◌+ℤ◌ ◌-ℤ◌ sub_amount add_amount refund_gas set_balance is_contract_addr
settled = refl

transition_state_conserves_example :
    (err : Option Err) × (t' : Transition MapTrie) × (transition_state map_trie one_key
        (3 ∷ [])
        pay_seven
        idle
        begin
      ≡ ok (err, t'))
    × (money 3 t' ≡ money 3 begin)
unfolding sender slice lookup insert same_bytes address left_pad_bytes new_transaction_message
    is_contract_addr new_state_object
transition_state_conserves_example =
    transition_state_conserves map_trie one_key (3 ∷ []) pay_seven idle 3 2 0 1 (omega arith)
      (omega arith) (omega arith) refl (1 ∷ []) begin refl refl refl refl refl refl refl refl

refund_to-settle_example :
    let t =
      refund_to pay_seven 2 0
        (settle code_error (copy_state map_trie three) (λ r t. t) (none, begin)).1 in
    (h' : ℕ) × (lookup t.state.state_objects (address (1 ∷ [])) ≡ some h')
    × ((t.state.heap h').balance ≡ (three.heap 0).balance)
unfolding lookup insert same_bytes address left_pad_bytes
refund_to-settle_example =
    refund_to-settle map_trie pay_seven code_error begin three 2 0 (address (1 ∷ [])) 0 (λ r t. t)
      (omega arith) (omega arith) refl
