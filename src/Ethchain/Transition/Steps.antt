-- ===== src/Ethchain/Transition/Steps.antt =====
-- What a message call to an account without code does behind the gas: it keeps the sum of the balances.
use eth_go.Common.{
  ℕ, ◌<◌, ◌≡◌, refl, ap, sym, ◌∙◌, subst, inl, inr, List, [], Bool, true, false, ◌==◌, ==_iff,
  Bool-cases, length, Result, ok, Option, none, some, lookup,
}
use eth_go.Common.Int.{ℤ, pos, ltb_ℤ, ◌*ℤ◌}
use eth_go.Ethutil.Bytes.{address}
use eth_go.Ethstate.Trie.{TrieOps}
use eth_go.Ethstate.Object.{StateObject, add_amount, sub_amount, set_balance}
use eth_go.Ethstate.Accounts.{State, Snapshot, copy_state}
use eth_go.Ethstate.Accounts.Loading.{get_or_new_found}
use eth_go.Ethchain.Transaction.{Transaction, Crypto, is_contract_addr}
use eth_go.Ethchain.Transition.{
  Transition, Err, Eval, out_of_gas, insufficient_value, balance_at, change, use_gas, pay_gas,
  charged, charge_data, gas_tx, gas_data, transfer, get_receiver, enter, run, execute_paid, execute,
}
use eth_go.Ethchain.Transition.Money.{total, money, money-transfer}

-- The transition ends with the coinbase and the sender it had, and the sum of the balances is `z`.
abbrev pub Good : {T : Type 0} → ℕ → ℕ → ℕ → ℤ → Result (Option Err × Transition T) → Type 0
Good {T} n c s z r =
    (err : Option Err) × (u : Transition T) × (r ≡ ok (err, u))
    × (u.cb ≡ some c)
    × (u.sen ≡ some s)
    × (money n u ≡ z)

-- The object at `r` has no code.
abbrev pub HasNoCode : {T : Type 0} → ℕ → Transition T → Type 0
HasNoCode r u = (u.state.heap r).code ≡ []

-- A change of an object that leaves its code alone leaves all code alone.
pub code_change :
    {T : Type 0} (f : StateObject T → StateObject T) (h r : ℕ) (u : Transition T)
    → ((o : StateObject T) → (f o).code ≡ o.code)
    → ((change f h u).state.heap r).code ≡ (u.state.heap r).code
unfolding change
code_change f h r u k = elim (Bool-cases (r == h)) [
  | inl e ↦ rw (e, k) (ap (λ q. (u.state.heap q).code) (sym ((==_iff r h).0 e)))
  | inr e ↦ rw e refl
]

-- Gas is no part of the state.
abbrev SameState : {T : Type 0} → Transition T → Transition T → Type 0
SameState t u = (u.state ≡ t.state) × (u.cb ≡ t.cb) × (u.sen ≡ t.sen) × (u.rec ≡ t.rec)

module _ {T : Type 0} where
  charged-use_gas : (t : Transition T) (z : ℤ) → SameState t (charged t (use_gas t z)).1
  unfolding charged use_gas
  charged-use_gas t z = elim (Bool-cases (ltb_ℤ t.gas z)) [
    | inl e ↦ rw e (refl, refl, refl, refl)
    | inr e ↦ rw e (refl, refl, refl, refl)
  ]

  charge_data_keeps : (size : ℕ) (p : Bool × Transition T) → SameState p.1 (charge_data size p).1
  unfolding charge_data
  charge_data_keeps size (false, u) = (refl, refl, refl, refl)
  charge_data_keeps size (true, u) = charged-use_gas u (pos size *ℤ gas_data)

  pay_gas_keeps : (t : Transition T) (size : ℕ) → SameState t (pay_gas t size).1
  unfolding pay_gas
  pay_gas_keeps t size =
      let (a, b, c, d) = charged-use_gas t gas_tx in
      let (a', b', c', d') = charge_data_keeps size (charged t (use_gas t gas_tx)) in
      (a' ∙ a, b' ∙ b, c' ∙ c, d' ∙ d)

module _ {T : Type 0} (ops : TrieOps T) (crypto : Crypto) (coinbase : List ℕ) (tx : Transaction)
    (eval : Eval T) (n c s r : ℕ) (hs : s < n) (hr : r < n)
    (account : is_contract_addr tx.recipient ≡ false) where
  run-Good :
      (u : Transition T) (snapshot : Snapshot T)
      → HasNoCode r u
      → u.cb ≡ some c
      → u.sen ≡ some s
      → Good n c s (money n u) (run ops crypto coinbase tx eval r snapshot u)
  unfolding run change
  run-Good u snapshot no_code hcb hsen = rw (account, no_code) (none, u, refl, hcb, hsen, refl)

  code_transfer :
      (from to h : ℕ) (value : ℤ) (u : Transition T)
      → ((transfer from to value u).state.heap h).code ≡ (u.state.heap h).code
  unfolding transfer add_amount sub_amount set_balance
  code_transfer from to h value u =
      code_change (λ o. add_amount o value) to h (change (λ o. sub_amount o value) from u)
        (λ o. refl)
      ∙ code_change (λ o. sub_amount o value) from h u (λ o. refl)

  get_receiver_found :
      (u : Transition T)
      → u.rec ≡ none
      → lookup u.state.state_objects (address tx.recipient) ≡ some r
      → get_receiver ops crypto coinbase tx eval u.rec u ≡ ok (r, record u { rec = some r })
  unfolding get_receiver
  get_receiver_found u e f = rw (e, get_or_new_found ops crypto.sha3 u.state tx.recipient r f) refl

  execute_paid-Good :
      (done : Bool) (u : Transition T)
      → tx.contract_creation ≡ false
      → u.cb ≡ some c
      → u.sen ≡ some s
      → u.rec ≡ none
      → lookup u.state.state_objects (address tx.recipient) ≡ some r
      → HasNoCode r u
      → Good n c s (money n u) (execute_paid ops crypto coinbase tx eval s (done, u))
  unfolding execute_paid enter transfer change
  execute_paid-Good false u message hcb hsen hrec f no_code =
      (some out_of_gas, u, refl, hcb, hsen, refl)
  execute_paid-Good true u message hcb hsen hrec f no_code =
      elim (Bool-cases (ltb_ℤ (balance_at u s) tx.value)) [
        | inl e ↦ rw e (some insufficient_value, u, refl, hcb, hsen, refl)
        | inr e ↦
            rw (e, message, get_receiver_found u hrec f)
              (let t = transfer s r tx.value (record u { rec = some r }) in
                let kept : HasNoCode r t =
                  code_transfer s r r tx.value (record u { rec = some r }) ∙ no_code in
                subst
                  (λ z. Good n c s z (run ops crypto coinbase tx eval r (copy_state ops t.state) t))
                  (money-transfer n s r tx.value (record u { rec = some r }) hs hr)
                  (run-Good t (copy_state ops t.state) kept hcb hsen))
      ]

  pub execute-Good :
      (u : Transition T)
      → tx.contract_creation ≡ false
      → u.cb ≡ some c
      → u.sen ≡ some s
      → u.rec ≡ none
      → lookup u.state.state_objects (address tx.recipient) ≡ some r
      → HasNoCode r u
      → Good n c s (money n u) (execute ops crypto coinbase tx eval s u)
  unfolding execute
  execute-Good u message hcb hsen hrec f no_code =
      let (paid, t) = pay_gas u (length tx.data') in
      let (same, kc, ks, kr) = pay_gas_keeps u (length tx.data') in
      subst
        (λ z.
          Good n c s z (execute_paid ops crypto coinbase tx eval s (pay_gas u (length tx.data'))))
        (ap (λ q. total n (State.heap q)) same)
        (execute_paid-Good paid t message (kc ∙ hcb) (ks ∙ hsen) (kr ∙ hrec)
          (ap (λ q. lookup (State.state_objects q) (address tx.recipient)) same ∙ f)
          (ap (λ q. StateObject.code (State.heap q r)) same ∙ no_code))
