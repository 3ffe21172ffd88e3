-- ===== src/Ethchain/Transition/Money.antt =====
-- The sum of the balances, and what the steps of a transition do to it.
use eth_go.Common.{
  ℕ, zero, suc, ◌<◌, ◌≡◌, refl, ap, ap₂, ◌∙◌, arith, false, ◌==◌, if◌then◌else◌, Option, none, some,
  Bool-cases, inl, inr,
}
use eth_go.Common.Int.{ℤ, pos, ◌+ℤ◌, ◌-ℤ◌, ◌*ℤ◌, int_laws}
use eth_go.Ethstate.Object.{StateObject, add_amount, sub_amount, set_balance, buy_gas, refund_gas}
use eth_go.Ethstate.Object.Amounts.{buy_gas_again}
use eth_go.Ethstate.Accounts.{write_object}
use eth_go.Ethchain.Transaction.{Transaction, gas_value}
use eth_go.Ethchain.Transition.{Transition, change, transfer, add_gas, bought, buy_from, refund_to}

swap_last : (a b c : ℤ) → a +ℤ c ≡ a +ℤ b +ℤ (c -ℤ b)
swap_last a b c = omega int_laws

add_right : (a b c : ℤ) → a +ℤ c +ℤ b ≡ a +ℤ b +ℤ c
add_right a b c = omega int_laws

nothing_added : (a b : ℤ) → a +ℤ (b -ℤ b) ≡ a
nothing_added a b = omega int_laws

added : (a b c : ℤ) → a +ℤ (b +ℤ c -ℤ b) ≡ a +ℤ c
added a b c = omega int_laws

taken : (a b c : ℤ) → a +ℤ (b -ℤ c -ℤ b) ≡ a -ℤ c
taken a b c = omega int_laws

back : (a b : ℤ) → a -ℤ b +ℤ b ≡ a
back a b = omega int_laws

forth : (a b : ℤ) → a +ℤ b -ℤ b ≡ a
forth a b = omega int_laws

module _ {T : Type 0} where
  -- The sum of the balances at the first `n` handles.
  unfoldable pub total : ℕ → (ℕ → StateObject T) → ℤ
  total zero heap = pos 0
  total (suc n) heap = total n heap +ℤ (heap n).balance

  abbrev pub money : ℕ → Transition T → ℤ
  money n t = total n t.state.heap

  abbrev written : (ℕ → StateObject T) → ℕ → StateObject T → ℕ → StateObject T
  written heap h o q = if q == h then o else heap q

  written_other :
      (heap : ℕ → StateObject T) (h q : ℕ) (o : StateObject T)
      → (q == h) ≡ false
      → written heap h o q ≡ heap q
  written_other heap h q o e = rw e refl

  total-outside :
      (n h : ℕ) (heap : ℕ → StateObject T) (o : StateObject T)
      → n < suc h
      → total n (written heap h o) ≡ total n heap
  unfolding total
  total-outside zero h heap o lt = refl
  total-outside (suc n) h heap o lt =
      ap₂ (λ a x. a +ℤ StateObject.balance x) (total-outside n h heap o (omega arith))
        (written_other heap h n o (ground arith))

  total-written :
      (n h : ℕ) (heap : ℕ → StateObject T) (o : StateObject T)
      → h < n
      → total n (written heap h o) ≡ total n heap +ℤ (o.balance -ℤ (heap h).balance)
  unfolding total
  total-written zero h heap o lt = absurd (omega arith)
  total-written (suc n) h heap o lt = elim (Bool-cases (n == h)) [
    | inl e ↦
        (let same : h ≡ n = ground (arith, e) in
          rw (e, total-outside n h heap o (omega arith), same)
            (swap_last (total n heap) (heap n).balance o.balance))
    | inr e ↦
        rw (e, total-written n h heap o (ground (arith, e)))
          (add_right (total n heap) (heap n).balance (o.balance -ℤ (heap h).balance))
  ]

  -- One account changes.
  money-change :
      (n h : ℕ) (f : StateObject T → StateObject T) (t : Transition T)
      → h < n
      → money n (change f h t)
        ≡ money n t +ℤ ((f (t.state.heap h)).balance -ℤ (t.state.heap h).balance)
  unfolding change
  money-change n h f t lt = total-written n h t.state.heap (f (t.state.heap h)) lt

  pub money-same :
      (n h : ℕ) (f : StateObject T → StateObject T) (t : Transition T)
      → h < n
      → ((o : StateObject T) → (f o).balance ≡ o.balance)
      → money n (change f h t) ≡ money n t
  money-same n h f t lt e =
      rw (money-change n h f t lt, e (t.state.heap h)) (nothing_added (money n t) _)

  money-add :
      (n h : ℕ) (z : ℤ) (t : Transition T)
      → h < n
      → money n (change (λ o. add_amount o z) h t) ≡ money n t +ℤ z
  unfolding add_amount set_balance
  money-add n h z t lt =
      money-change n h (λ o. add_amount o z) t lt ∙ added (money n t) (t.state.heap h).balance z

  money-sub :
      (n h : ℕ) (z : ℤ) (t : Transition T)
      → h < n
      → money n (change (λ o. sub_amount o z) h t) ≡ money n t -ℤ z
  unfolding sub_amount set_balance
  money-sub n h z t lt =
      money-change n h (λ o. sub_amount o z) t lt ∙ taken (money n t) (t.state.heap h).balance z

  -- A transfer between two accounts, which may be the same one, keeps the sum.
  pub money-transfer :
      (n from to : ℕ) (value : ℤ) (t : Transition T)
      → from < n
      → to < n
      → money n (transfer from to value t) ≡ money n t
  unfolding transfer
  money-transfer n from to value t hf ht =
      money-add n to value (change (λ o. sub_amount o value) from t) ht
      ∙ (ap (λ z. z +ℤ value) (money-sub n from value t hf) ∙ back (money n t) value)

  money-bought :
      (n sen cb : ℕ) (tx : Transaction) (t : Transition T) (c : Option (StateObject T))
      → sen < n
      → cb < n
      → buy_gas (t.state.heap cb) tx.gas tx.gas_price ≡ c
      → money n (bought tx sen cb t c).1 ≡ money n t
  unfolding bought add_gas gas_value
  money-bought n sen cb tx t none hs hc e = refl
  money-bought n sen cb tx t (some o) hs hc e =
      let price = tx.gas *ℤ tx.gas_price in
      let (_, paid, _) = buy_gas_again (t.state.heap cb) o tx.gas tx.gas_price e in
      money-sub n sen price (add_gas (record t { state = write_object t.state cb o }) tx.gas) hs
      ∙ (ap (λ z. z -ℤ price)
            (total-written n cb t.state.heap o hc
              ∙ (ap (λ b. money n t +ℤ (b -ℤ (t.state.heap cb).balance)) paid
                  ∙ added (money n t) (t.state.heap cb).balance price))
          ∙ forth (money n t) price)

  -- What the coinbase gets for gas, the sender pays.
  pub money-buy_from :
      (n sen cb : ℕ) (tx : Transaction) (t : Transition T)
      → sen < n
      → cb < n
      → money n (buy_from tx sen cb t).1 ≡ money n t
  unfolding buy_from
  money-buy_from n sen cb tx t hs hc = money-bought n sen cb tx t _ hs hc refl

  -- What the coinbase gives back, the sender gets.
  pub money-refund_to :
      (n cb sen : ℕ) (tx : Transaction) (t : Transition T)
      → cb < n
      → sen < n
      → money n (refund_to tx cb sen t) ≡ money n t
  unfolding refund_to refund_gas
  money-refund_to n cb sen tx t hc hs =
      let price = t.gas *ℤ tx.gas_price in
      money-add n sen price (change (λ o. refund_gas o t.gas tx.gas_price) cb t) hs
      ∙ (ap (λ z. z +ℤ price)
            (money-change n cb (λ o. refund_gas o t.gas tx.gas_price) t hc
              ∙ taken (money n t) (t.state.heap cb).balance price)
          ∙ back (money n t) price)
