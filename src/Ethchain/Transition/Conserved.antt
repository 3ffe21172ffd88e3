-- ===== src/Ethchain/Transition/Conserved.antt =====
-- A message call between accounts that the state has, to one without code: no balance is made or lost.
use eth_go.Common.{
  ℕ, ◌+◌, ◌%◌, ◌^◌, ◌<◌, ◌≡◌, refl, sym, ap, ◌∙◌, subst, inl, inr, List, [], false, ◌==◌, ==_iff,
  Bool-cases, Result, ok, ◌>>=◌, Option, none, some, lookup,
}
use eth_go.Common.Int.{ℤ, ltb_ℤ}
use eth_go.Ethutil.Bytes.{address}
use eth_go.Ethstate.Trie.{TrieOps}
use eth_go.Ethstate.Object.{StateObject, buy_gas, add_amount, sub_amount, set_balance}
use eth_go.Ethstate.Accounts.{write_object}
use eth_go.Ethstate.Accounts.Loading.{get_or_new_found}
use eth_go.Ethchain.Transaction.{Transaction, Crypto, gas_value, sender, is_contract_addr}
use eth_go.Ethchain.Transition.{
  Transition, Err, Eval, nonce_error, insufficient_gas_funds, balance_at, change, bought, buy_from,
  refund_to, get_coinbase, get_sender, buy_gas_t, refund_gas_t, pre_check, add_gas, after_check,
  checked, transition_state,
}
use eth_go.Ethchain.Transition.Money.{money, money-same, money-buy_from, money-refund_to}
use eth_go.Ethchain.Transition.Steps.{Good, HasNoCode, code_change, execute-Good}

module _ {T : Type 0} (ops : TrieOps T) (crypto : Crypto) (coinbase : List ℕ) (tx : Transaction)
    (eval : Eval T) (n c s r : ℕ) (hc : c < n) (hs : s < n) (hr : r < n)
    (account : is_contract_addr tx.recipient ≡ false) where
  coinbase_kept :
      (u : Transition T)
      → u.cb ≡ some c
      → get_coinbase ops crypto coinbase tx eval u.cb u ≡ ok (c, u)
  unfolding get_coinbase
  coinbase_kept u e = ap (λ o. get_coinbase ops crypto coinbase tx eval o u) e

  sender_kept :
      (u : Transition T)
      → u.sen ≡ some s
      → get_sender ops crypto coinbase tx eval u.sen u ≡ ok (s, u)
  unfolding get_sender
  sender_kept u e = ap (λ o. get_sender ops crypto coinbase tx eval o u) e

  refund-Good :
      (z : ℤ) (err : Option Err) (u : Transition T)
      → u.cb ≡ some c
      → u.sen ≡ some s
      → money n u ≡ z
      → Good n c s z (do t ← refund_gas_t ops crypto coinbase tx eval u; ok (err, t))
  unfolding refund_gas_t refund_to change
  refund-Good z err u hcb hsen k =
      rw (coinbase_kept u hcb, sender_kept u hsen)
        (err, refund_to tx c s u, refl, hcb, hsen, money-refund_to n c s tx u hc hs ∙ k)

  after_check-Good :
      (u : Transition T)
      → tx.contract_creation ≡ false
      → u.cb ≡ some c
      → u.sen ≡ some s
      → u.rec ≡ none
      → lookup u.state.state_objects (address tx.recipient) ≡ some r
      → HasNoCode r u
      → Good n c s (money n u) (after_check ops crypto coinbase tx eval u)
  unfolding after_check change
  after_check-Good u message hcb hsen hrec f no_code =
      let later = change (λ o. record o { nonce = (o.nonce + 1) % 2 ^ 64 }) s u in
      let (err, t, e, kc, ks, km) =
        execute-Good ops crypto coinbase tx eval n c s r hs hr account later message hcb hsen hrec f
          (code_change (λ o. record o { nonce = (o.nonce + 1) % 2 ^ 64 }) s r u (λ o. refl)
            ∙ no_code) in
      rw (sender_kept u hsen, e)
        (subst
          (λ z. Good n c s z (do t' ← refund_gas_t ops crypto coinbase tx eval t; ok (err, t')))
          (money-same n s (λ o. record o { nonce = (o.nonce + 1) % 2 ^ 64 }) u hs (λ o. refl))
          (refund-Good (money n later) err t kc ks km))

  -- What the check leaves: the pointers, the map of the state, and the sum of the balances.
  abbrev Checked : Transition T → Result (Option Err × Transition T) → Type 0
  Checked t x =
      (err : Option Err) × (u : Transition T) × (x ≡ ok (err, u))
      × (u.cb ≡ some c)
      × (u.sen ≡ some s)
      × (u.rec ≡ t.rec)
      × (u.state.state_objects ≡ t.state.state_objects)
      × (money n u ≡ money n t)
      × ((u.state.heap r).code ≡ (t.state.heap r).code)

  buy_from_keeps :
      (u : Transition T) (o : Option (StateObject T))
      → let u' = (bought tx s c u o).1 in
        (u'.cb ≡ u.cb)
        × (u'.sen ≡ u.sen)
        × (u'.rec ≡ u.rec)
        × (u'.state.state_objects ≡ u.state.state_objects)
  unfolding bought change add_gas
  buy_from_keeps u none = (refl, refl, refl, refl)
  buy_from_keeps u (some o) = (refl, refl, refl, refl)

  code-bought :
      (u : Transition T) (o : Option (StateObject T))
      → ((x : StateObject T) → o ≡ some x → x.code ≡ (u.state.heap c).code)
      → ((bought tx s c u o).1.state.heap r).code ≡ (u.state.heap r).code
  unfolding bought add_gas sub_amount set_balance
  code-bought u none k = refl
  code-bought u (some o) k =
      code_change (λ x. sub_amount x (gas_value tx)) s r
        (add_gas (record u { state = write_object u.state c o }) tx.gas) (λ x. refl)
      ∙ elim (Bool-cases (r == c)) [
        | inl e ↦ rw e (k o refl ∙ ap (λ q. (u.state.heap q).code) (sym ((==_iff r c).0 e)))
        | inr e ↦ rw e refl
      ]

  code-buy_gas :
      (o x : StateObject T) (gas price : ℤ) → buy_gas o gas price ≡ some x → x.code ≡ o.code
  unfolding buy_gas add_amount set_balance
  code-buy_gas o x gas price = elim (Bool-cases (ltb_ℤ o.gas_pool gas)) [
    | inl e ↦ rw e (λ h. absurd (cc))
    | inr e ↦ rw e (λ h. cc)
  ]

  code-buy_from :
      (u : Transition T)
      → ((bought tx s c u (buy_gas (u.state.heap c) tx.gas tx.gas_price)).1.state.heap r).code
        ≡ (u.state.heap r).code
  code-buy_from u = code-bought u _ (λ x e. code-buy_gas (u.state.heap c) x tx.gas tx.gas_price e)

  buy_gas-Checked :
      (u : Transition T)
      → u.cb ≡ some c
      → u.sen ≡ some s
      → Checked u (buy_gas_t ops crypto coinbase tx eval u)
  unfolding buy_gas_t buy_from
  buy_gas-Checked u hcb hsen =
      rw (sender_kept u hsen) (elim (Bool-cases (ltb_ℤ (balance_at u s) (gas_value tx))) [
        | inl e ↦ rw e (some insufficient_gas_funds, u, refl, hcb, hsen, refl, refl, refl, refl)
        | inr e ↦
            rw (e, coinbase_kept u hcb)
              (let (kc, ks, kr, km) =
                  buy_from_keeps u (buy_gas (u.state.heap c) tx.gas tx.gas_price) in
                (
                  (buy_from tx s c u).0,
                  (buy_from tx s c u).1,
                  refl,
                  kc ∙ hcb,
                  ks ∙ hsen,
                  kr,
                  km,
                  money-buy_from n s c tx u hs hc,
                  code-buy_from u,
                ))
      ])

  module _ (addr : List ℕ) (t : Transition T) (known : sender crypto tx ≡ ok addr)
      (has_sender : lookup t.state.state_objects (address addr) ≡ some s) (tcb : t.cb ≡ some c)
      (tsen : t.sen ≡ none) where
    sender_found :
        get_sender ops crypto coinbase tx eval t.sen t ≡ ok (s, record t { sen = some s })
    unfolding get_sender
    sender_found = rw (tsen, known, get_or_new_found ops crypto.sha3 t.state addr s has_sender) refl

    pre_check-Checked : Checked t (pre_check ops crypto coinbase tx eval t)
    unfolding pre_check
    pre_check-Checked = rw sender_found (elim (Bool-cases ((t.state.heap s).nonce == tx.nonce)) [
      | inl e ↦ rw e (buy_gas-Checked (record t { sen = some s }) tcb refl)
      | inr e ↦
          rw e
            (some nonce_error, record t { sen = some s }, refl, tcb, refl, refl, refl, refl, refl)
    ])

    checked-Good :
        (err : Option Err) (u : Transition T)
        → tx.contract_creation ≡ false
        → u.cb ≡ some c
        → u.sen ≡ some s
        → u.rec ≡ none
        → lookup u.state.state_objects (address tx.recipient) ≡ some r
        → HasNoCode r u
        → Good n c s (money n u) (checked ops crypto coinbase tx eval (err, u))
    unfolding checked
    checked-Good none u message hcb hsen hrec f no_code =
        after_check-Good u message hcb hsen hrec f no_code
    checked-Good (some err) u message hcb hsen hrec f no_code = (some err, u, refl, hcb, hsen, refl)

    -- A message call with a known sender, from an account that the state has to one that it has and
    -- that has no code, ends, and leaves the sum of the balances at any number of handles that are
    -- above those of the sender, the receiver and the coinbase as it was, in each of its outcomes,
    -- errors included: the gas is bought, paid and refunded, the value is transferred, and no code is
    -- run. The coinbase, the sender and the receiver may be the same account. The transition knows the
    -- coinbase, and has looked up neither the sender nor the receiver, whose address is not the one for
    -- contracts.
    pub transition_state_conserves :
        t.rec ≡ none
        → tx.contract_creation ≡ false
        → lookup t.state.state_objects (address tx.recipient) ≡ some r
        → (t.state.heap r).code ≡ []
        → (err : Option Err) × (t' : Transition T) × (transition_state ops crypto coinbase tx eval t
            ≡ ok (err, t'))
          × (money n t' ≡ money n t)
    unfolding transition_state
    transition_state_conserves trec message has_receiver no_code =
        let (err, u, e, kc, ks, kr, km, kz, kk) = pre_check-Checked in
        let (err', t', e', _, _, k) =
          checked-Good err u message kc ks (kr ∙ trec)
            (ap (λ m. lookup m (address tx.recipient)) km ∙ has_receiver) (kk ∙ no_code) in
        (err', t', rw e e', k ∙ kz)
