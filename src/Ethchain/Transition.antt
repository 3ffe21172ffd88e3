-- ===== src/Ethchain/Transition.antt =====
-- ethchain/state_transition.go: a transaction applied to a state. The objects are handles into the
-- heap of the state, as the code keeps pointers to the coinbase, the sender and the receiver while
-- the map of the state may change. `MakeContract` makes an object for every transaction that creates
-- a contract, so that the error "Unable to create contract" is not met. Messages for subscribers are left out.
pub mod Money
pub mod Steps
pub mod Conserved
pub mod Failed
mod Runs
use eth_go.Common.{
  ℕ, ◌+◌, ◌*◌, ◌%◌, ◌^◌, List, [], ◌∷◌, Bool, true, false, ltb, ◌==◌, if◌then◌else◌, length, Result,
  ok, panic, ◌>>=◌, Option, none, some,
}
use eth_go.Common.Int.{ℤ, pos, ltb_ℤ, ◌+ℤ◌, ◌-ℤ◌, ◌*ℤ◌}
use eth_go.Ethstate.Trie.{TrieOps}
use eth_go.Ethstate.Object.{StateObject, add_amount, sub_amount, buy_gas, refund_gas}
use eth_go.Ethstate.Accounts.{
  State, Snapshot, write_object, get_or_new_state_object, new_account, copy_state, set_state,
}
use eth_go.Ethchain.Transaction.{
  Transaction, Crypto, gas_value, sender, creation_address, is_contract_addr,
}

-- `cb`, `sen` and `rec`; nil is `none`.
pub record Transition (T : Type 0) : Type 0 where
  pub gas : ℤ
  pub state : State T
  pub cb : Option ℕ
  pub rec : Option ℕ
  pub sen : Option ℕ

pub data Err : Type 0 where
  nonce_error insufficient_gas_funds gas_limit_error out_of_gas insufficient_value init_error
        code_error :
      Err

-- ethvm/common.go
abbrev pub gas_tx : ℤ
gas_tx = pos 500

abbrev pub gas_data : ℤ
gas_data = pos 5

module _ {T : Type 0} where
  unfoldable pub change : (StateObject T → StateObject T) → ℕ → Transition T → Transition T
  change f h t = record t { state = write_object t.state h (f (t.state.heap h)) }

  abbrev pub balance_at : Transition T → ℕ → ℤ
  balance_at t h = (t.state.heap h).balance

  -- `none` is the error.
  unfoldable pub use_gas : Transition T → ℤ → Option (Transition T)
  use_gas t amount = if ltb_ℤ t.gas amount then none else some (record t { gas = t.gas -ℤ amount })

  unfoldable pub add_gas : Transition T → ℤ → Transition T
  add_gas t amount = record t { gas = t.gas +ℤ amount }

  -- A failed `UseGas` leaves the transition, and whatever an earlier one took is gone.
  unfoldable pub charged : Transition T → Option (Transition T) → Bool × Transition T
  charged t none = (false, t)
  charged t (some u) = (true, u)

  unfoldable pub charge_data : ℕ → Bool × Transition T → Bool × Transition T
  unfolding charged
  charge_data size (false, u) = (false, u)
  charge_data size (true, u) = charged u (use_gas u (pos size *ℤ gas_data))

  -- `UseGas` for the transaction, then for its data.
  unfoldable pub pay_gas : Transition T → ℕ → Bool × Transition T
  unfolding use_gas charge_data
  pay_gas t size = charge_data size (charged t (use_gas t gas_tx))

  -- The value goes from one account to another.
  unfoldable pub transfer : ℕ → ℕ → ℤ → Transition T → Transition T
  unfolding change
  transfer from to value t =
      change (λ o. add_amount o value) to (change (λ o. sub_amount o value) from t)

  -- `BuyGas` behind the purchase from the coinbase.
  unfoldable pub bought :
      Transaction → ℕ → ℕ → Transition T → Option (StateObject T) → Option Err × Transition T
  unfolding change add_gas
  bought tx sen cb t none = (some gas_limit_error, t)
  bought tx sen cb t (some o) = (
    none,
    change (λ o. sub_amount o (gas_value tx)) sen
        (add_gas (record t { state = write_object t.state cb o }) tx.gas),
  )

  unfoldable pub buy_from : Transaction → ℕ → ℕ → Transition T → Option Err × Transition T
  unfolding bought
  buy_from tx sen cb t = bought tx sen cb t (buy_gas (t.state.heap cb) tx.gas tx.gas_price)

  unfoldable pub refund_to : Transaction → ℕ → ℕ → Transition T → Transition T
  unfolding change
  refund_to tx cb sen t =
      change (λ o. add_amount o (t.gas *ℤ tx.gas_price)) sen
        (change (λ o. refund_gas o t.gas tx.gas_price) cb t)

  -- What follows `Eval`: an error sets the state back.
  unfoldable pub settle :
      Err
      → Snapshot T
      → (List ℕ → Transition T → Transition T)
      → Option (List ℕ) × Transition T
      → Option Err × Transition T
  settle err snapshot done (none, t) = (some err, record t { state = set_state t.state snapshot })
  settle err snapshot done (some ret, t) = (none, done ret t)

  abbrev pub found :
      (Transition T → ℕ → Transition T) → Transition T → ℕ × State T → ℕ × Transition T
  found keep t (h, s) = (h, keep (record t { state = s }) h)

-- `Eval`: the code of a context is run; an error has no result. It may change the state and the gas.
abbrev pub Eval : Type 0 → Type 0
Eval T = Transition T → ℕ → List ℕ → Result (Option (List ℕ) × Transition T)

module _ {T : Type 0} (ops : TrieOps T) (crypto : Crypto) (coinbase : List ℕ) (tx : Transaction)
    (eval : Eval T) where
  abbrev pub load : List ℕ → State T → Result (ℕ × State T)
  load addr s = get_or_new_state_object ops crypto.sha3 s addr

  unfoldable pub get_coinbase : Option ℕ → Transition T → Result (ℕ × Transition T)
  get_coinbase (some h) t = ok (h, t)
  get_coinbase none t = do
    hs ← load coinbase t.state
    ok (found (λ t h. record t { cb = some h }) t hs)

  unfoldable pub get_sender : Option ℕ → Transition T → Result (ℕ × Transition T)
  get_sender (some h) t = ok (h, t)
  get_sender none t = do
    addr ← sender crypto tx
    hs ← load addr t.state
    ok (found (λ t h. record t { sen = some h }) t hs)

  -- Called where the transaction creates no contract.
  unfoldable pub get_receiver : Option ℕ → Transition T → Result (ℕ × Transition T)
  get_receiver (some h) t = ok (h, t)
  get_receiver none t = do
    hs ← load tx.recipient t.state
    ok (found (λ t h. record t { rec = some h }) t hs)

  unfoldable pub buy_gas_t : Transition T → Result (Option Err × Transition T)
  unfolding get_sender get_coinbase buy_from
  buy_gas_t t = do
    (sen, t1) ← get_sender t.sen t
    if ltb_ℤ (balance_at t1 sen) (gas_value tx)
        then ok (some insufficient_gas_funds, t1)
        else (do (cb, t2) ← get_coinbase t1.cb t1; ok (buy_from tx sen cb t2))

  unfoldable pub refund_gas_t : Transition T → Result (Transition T)
  unfolding get_sender get_coinbase refund_to
  refund_gas_t t = do
    (cb, t1) ← get_coinbase t.cb t
    (sen, t2) ← get_sender t1.sen t1
    ok (refund_to tx cb sen t2)

  unfoldable pub pre_check : Transition T → Result (Option Err × Transition T)
  unfolding get_sender buy_gas_t
  pre_check t = do
    (sen, t1) ← get_sender t.sen t
    if (t1.state.heap sen).nonce == tx.nonce then buy_gas_t t1 else ok (some nonce_error, t1)

  -- `MakeContract`, which the map has under the creation address.
  unfoldable pub make_contract : Transition T → Result (ℕ × Transition T)
  unfolding change
  make_contract t = do
    addr ← creation_address crypto tx
    let (h, s) = new_account ops crypto.sha3 t.state addr
    let made = change (λ o. record o { init_code = tx.data'; state = ops.empty }) h
    ok (h, made (record t { state = s; rec = some h }))

  -- The receiver, with the value, and the snapshot: of the state before a new contract is made, and
  -- after the value has gone to an account.
  unfoldable pub enter : ℕ → Transition T → Result (ℕ × Snapshot T × Transition T)
  unfolding make_contract get_receiver change transfer
  enter sen t =
      if tx.contract_creation
      then (do
        let paid = change (λ o. sub_amount o tx.value) sen t
        (h, t1) ← make_contract paid
        ok (h, copy_state ops paid.state, change (λ o. add_amount o tx.value) h t1))
      else (do
        (h, t1) ← get_receiver t.rec t
        let t2 = transfer sen h tx.value t1
        ok (h, copy_state ops t2.state, t2))

  -- The initialisation code of a contract gives its code; other code is run for its effect.
  unfoldable pub run : ℕ → Snapshot T → Transition T → Result (Option Err × Transition T)
  unfolding settle change
  run h snapshot t =
      if is_contract_addr tx.recipient
      then (do
        r ← eval t h (t.state.heap h).init_code
        ok (settle init_error snapshot (λ code. change (λ o. record o { code = code }) h) r))
      else if length (t.state.heap h).code == 0
      then ok (none, t)
      else (do r ← eval t h (t.state.heap h).code; ok (settle code_error snapshot (λ ret t'. t') r))

  -- `TransitionState` behind the gas.
  unfoldable pub execute_paid : ℕ → Bool × Transition T → Result (Option Err × Transition T)
  unfolding enter run
  execute_paid sen (false, t) = ok (some out_of_gas, t)
  execute_paid sen (true, t) =
      if ltb_ℤ (balance_at t sen) tx.value
      then ok (some insufficient_value, t)
      else (do (h, snapshot, t1) ← enter sen t; run h snapshot t1)

  unfoldable pub execute : ℕ → Transition T → Result (Option Err × Transition T)
  unfolding pay_gas execute_paid
  execute sen t = execute_paid sen (pay_gas t (length tx.data'))

  -- What follows a check that passes. The deferred refund runs at every return from here on.
  unfoldable pub after_check : Transition T → Result (Option Err × Transition T)
  unfolding get_sender change execute refund_gas_t
  after_check t = do
    (sen, t1) ← get_sender t.sen t
    let t2 = change (λ o. record o { nonce = (o.nonce + 1) % 2 ^ 64 }) sen t1
    (err, t3) ← execute sen t2
    t4 ← refund_gas_t t3
    ok (err, t4)

  unfoldable pub checked : Option Err × Transition T → Result (Option Err × Transition T)
  unfolding after_check
  checked (some err, t) = ok (some err, t)
  checked (none, t) = after_check t

  unfoldable pub transition_state : Transition T → Result (Option Err × Transition T)
  unfolding pre_check checked
  transition_state t = do r ← pre_check t; checked r
