-- ===== src/Ethchain/Pool.antt =====
-- ethchain/transaction_pool.go: the pool of transactions. What is sent to peers and to subscribers is
-- left out. The state is the current one, which is also the one that RemoveInvalid is called with.
pub mod Laws
mod Runs
use eth_go.Common.{
  ℕ, ◌+◌, List, [], ◌∷◌, ◌++◌, Bool, true, false, not, ltb, leb, ◌==◌, ◌||◌, ◌&&◌, if◌then◌else◌,
  length, Result, ok, ◌>>=◌, slice as slice_of, Option, none, some, same_bytes,
}
use eth_go.Common.Int.{ℤ, pos, ltb_ℤ}
use eth_go.Ethstate.Trie.{TrieOps}
use eth_go.Ethstate.Accounts.{State, get_or_new_state_object}
use eth_go.Ethchain.Transaction.{Transaction, Crypto, hash, sender}

-- What `ValidateTransaction` refuses.
pub data Refusal : Type 0 where
  no_last_block invalid_recipient insufficient_amount gas_price_too_low : Refusal

abbrev pub min_gas_price : ℤ
min_gas_price = pos 1000000

pub record TxPool (T : Type 0) : Type 0 where
  pub txs : List Transaction
  pub state : State T

module _ {T : Type 0} (ops : TrieOps T) (crypto : Crypto) where
  -- `FindTx`, with the search for a hash.
  unfoldable pub find_tx : List Transaction → List ℕ → Option Transaction
  find_tx [] h = none
  find_tx (tx ∷ txs) h =
      let rest = find_tx txs h in if same_bytes (hash crypto tx) h then some tx else rest

  -- The account of the sender, at its handle in the state.
  abbrev pub get_account : State T → Transaction → Result (ℕ × State T)
  get_account s tx = do addr ← sender crypto tx; get_or_new_state_object ops crypto.sha3 s addr

  unfoldable pub check_amounts : ℤ → Transaction → Option Refusal
  check_amounts balance tx =
      if ltb_ℤ balance tx.value
      then some insufficient_amount
      else if tx.contract_creation && ltb_ℤ tx.gas_price min_gas_price
      then some gas_price_too_low
      else none

  -- `has_block`: the chain has a last block.
  unfoldable pub validate_transaction :
      Bool → State T → Transaction → Result (Option Refusal × State T)
  unfolding check_amounts
  validate_transaction false s tx = ok (some no_last_block, s)
  validate_transaction true s tx = do
    let accounts = do (h, s') ← get_account s tx; ok (check_amounts (s'.heap h).balance tx, s')
    if length tx.recipient == 20 then accounts else ok (some invalid_recipient, s)

  unfoldable pub add_transaction : TxPool T → Transaction → TxPool T
  add_transaction p tx = record p { txs = p.txs ++ (tx ∷ []) }

  -- The case of `queueHandler` behind the validation. The line for the log slices both addresses.
  unfoldable pub add_valid : TxPool T → Transaction → Option Refusal × State T → Result (TxPool T)
  unfolding add_transaction
  add_valid p tx (some refusal, s) = ok (record p { state = s })
  add_valid p tx (none, s) = do
    from ← sender crypto tx
    from4 ← slice_of from 0 4
    to4 ← slice_of tx.recipient 0 4
    ok (add_transaction (record p { state = s }) tx)

  unfoldable pub add_unknown :
      Bool → TxPool T → Transaction → Option Transaction → Result (TxPool T)
  unfolding validate_transaction add_valid
  add_unknown has_block p tx (some found) = ok p
  add_unknown has_block p tx none = do
    r ← validate_transaction has_block p.state tx
    add_valid p tx r

  -- What `queueHandler` does with a transaction that it receives.
  unfoldable pub handle : Bool → TxPool T → Transaction → Result (TxPool T)
  unfolding find_tx add_unknown
  handle has_block p tx = add_unknown has_block p tx (find_tx p.txs (hash crypto tx))

  -- Is the transaction to go? Both calls may load the sender's account.
  unfoldable pub is_invalid : Bool → State T → Transaction → Result (Bool × State T)
  unfolding validate_transaction
  is_invalid has_block s tx = do
    (h, s1) ← get_account s tx
    (err, s2) ← validate_transaction has_block s1 tx
    ok (elim err [ none ↦ leb tx.nonce (s2.heap h).nonce | some e ↦ true ], s2)

  -- The loop of `RemoveInvalid`: `Remove` of container/list clears the links of its element, so that
  -- `Next` of a removed one is nil and the loop ends.
  unfoldable pub remove_from :
      Bool → State T → List Transaction → Result (List Transaction × State T)
  unfolding is_invalid
  remove_from has_block s [] = ok ([], s)
  remove_from has_block s (tx ∷ txs) = do
    (invalid, s1) ← is_invalid has_block s tx
    let removed = ok (txs, s1)
    let kept = do (rest, s2) ← remove_from has_block s1 txs; ok (tx ∷ rest, s2)
    if invalid then removed else kept

  unfoldable pub remove_invalid : Bool → TxPool T → Result (TxPool T)
  unfolding remove_from
  remove_invalid has_block p = do
    (txs, s) ← remove_from has_block p.state p.txs
    ok (record { txs = txs; state = s })

  -- The transactions, in the order of their arrival, and the pool without them.
  unfoldable pub flush : TxPool T → List Transaction × TxPool T
  flush p = (p.txs, record p { txs = [] })
