-- ===== src/Ethchain/Pool/Laws.antt =====
-- What holds of the pool, and what RemoveInvalid does not do.
use eth_go.Common.{
  first_step, ℕ, suc, ◌≤◌, ◌≡◌, refl, ap, subst, arith, inl, inr, List, [], ◌∷◌, ◌++◌, Bool, true,
  false, if◌then◌else◌, Bool-cases, length, Result, ok, panic, out_of_fuel, ◌>>=◌, slice, Option,
  none, some, same_bytes, All, All-append,
}
use eth_go.Ethstate.Trie.{TrieOps}
use eth_go.Ethstate.Accounts.{State}
use eth_go.Ethchain.Transaction.{Transaction, Crypto, hash, sender}
use eth_go.Ethchain.Pool.{
  TxPool, Refusal, find_tx, validate_transaction, add_transaction, add_valid, add_unknown, handle,
  is_invalid, remove_from, remove_invalid,
}

ok_same : {A : Type 0} (a b : A) → ok a ≡ ok b → a ≡ b
ok_same a b e = cc

abbrev kept_in :
    {T : Type 0}
    → Transaction
    → Result (List Transaction × State T)
    → Result (List Transaction × State T)
kept_in tx r = do (rest, s) ← r; ok (tx ∷ rest, s)

module _ (crypto : Crypto) where
  -- No transaction is twice in the list.
  abbrev pub AreDistinct : List Transaction → Type 0
  AreDistinct [] = Unit
  AreDistinct (tx ∷ txs) =
      All (λ u. same_bytes (hash crypto tx) (hash crypto u) ≡ false) txs × AreDistinct txs

  distinct_snoc :
      (txs : List Transaction) (x : Transaction)
      → AreDistinct txs
      → All (λ u. same_bytes (hash crypto u) (hash crypto x) ≡ false) txs
      → AreDistinct (txs ++ (x ∷ []))
  distinct_snoc [] x d a = (tt, tt)
  distinct_snoc (tx ∷ txs) x (dx, d) (ax, a) = (
    All-append (λ u. same_bytes (hash crypto tx) (hash crypto u) ≡ false) txs (x ∷ []) dx (ax, tt),
    distinct_snoc txs x d a,
  )

module _ {T : Type 0} (ops : TrieOps T) (crypto : Crypto) where
  find_tx-none :
      (txs : List Transaction) (h : List ℕ)
      → find_tx ops crypto txs h ≡ none
      → All (λ u. same_bytes (hash crypto u) h ≡ false) txs
  unfolding find_tx
  find_tx-none [] h e = tt
  find_tx-none (tx ∷ txs) h e = elim (Bool-cases (same_bytes (hash crypto tx) h)) [
    | inl f ↦ absurd (ground (arith, e, f))
    | inr f ↦ (f, find_tx-none txs h (ground (arith, e, f)))
  ]

  add_valid-AreDistinct :
      (p p' : TxPool T) (tx : Transaction) (r : Option Refusal × State T)
      → AreDistinct crypto p.txs
      → All (λ u. same_bytes (hash crypto u) (hash crypto tx) ≡ false) p.txs
      → add_valid ops crypto p tx r ≡ ok p'
      → AreDistinct crypto p'.txs
  unfolding add_valid add_transaction
  add_valid-AreDistinct p p' tx (some refusal, s) d a e =
      subst (λ (q : TxPool T). AreDistinct crypto q.txs) (ok_same (record p { state = s }) p' e) d
  add_valid-AreDistinct p p' tx (none, s) d a e =
      let (from, _, e1) = first_step (sender crypto tx) _ p' e in
      let (from4, _, e2) = first_step (slice from 0 4) _ p' e1 in
      let (to4, _, e3) = first_step (slice tx.recipient 0 4) _ p' e2 in
      subst (λ (q : TxPool T). AreDistinct crypto q.txs)
        (ok_same (add_transaction ops crypto (record p { state = s }) tx) p' e3)
        (distinct_snoc crypto p.txs tx d a)

  add_unknown-AreDistinct :
      (has_block : Bool) (p p' : TxPool T) (tx : Transaction) (c : Option Transaction)
      → AreDistinct crypto p.txs
      → (c ≡ none → All (λ u. same_bytes (hash crypto u) (hash crypto tx) ≡ false) p.txs)
      → add_unknown ops crypto has_block p tx c ≡ ok p'
      → AreDistinct crypto p'.txs
  unfolding add_unknown
  add_unknown-AreDistinct has_block p p' tx (some u) d a e =
      subst (λ (q : TxPool T). AreDistinct crypto q.txs) (ok_same p p' e) d
  add_unknown-AreDistinct has_block p p' tx none d a e =
      let (r, _, e1) = first_step (validate_transaction ops crypto has_block p.state tx) _ p' e in
      add_valid-AreDistinct p p' tx r d (a refl) e1

  -- The queue handler keeps the pool free of two transactions with one hash, whatever it receives.
  pub handle-AreDistinct :
      (has_block : Bool) (p p' : TxPool T) (tx : Transaction)
      → AreDistinct crypto p.txs
      → handle ops crypto has_block p tx ≡ ok p'
      → AreDistinct crypto p'.txs
  unfolding handle
  handle-AreDistinct has_block p p' tx d e =
      add_unknown-AreDistinct has_block p p' tx (find_tx ops crypto p.txs (hash crypto tx)) d
        (find_tx-none p.txs (hash crypto tx)) e

  remove_step :
      (invalid : Bool) (tx : Transaction) (txs : List Transaction) (s1 : State T)
      (r : Result (List Transaction × State T)) (txs' : List Transaction) (s' : State T)
      → ((rest : List Transaction) (s2 : State T)
          → r ≡ ok (rest, s2)
          → length txs ≤ suc (length rest))
      → (if invalid then ok (txs, s1) else kept_in tx r) ≡ ok (txs', s')
      → suc (length txs) ≤ suc (length txs')
  remove_step true tx txs s1 r txs' s' ih e =
      let same : txs ≡ txs' = cc in omega (arith, ap length same)
  remove_step false tx txs s1 (ok (rest, s2)) txs' s' ih e =
      let same : tx ∷ rest ≡ txs' = cc in omega (arith, ap length same, ih rest s2 refl)
  remove_step false tx txs s1 panic txs' s' ih e = absurd (cc)
  remove_step false tx txs s1 out_of_fuel txs' s' ih e = absurd (cc)

  remove_from-one :
      (has_block : Bool) (s s' : State T) (txs txs' : List Transaction)
      → remove_from ops crypto has_block s txs ≡ ok (txs', s')
      → length txs ≤ suc (length txs')
  unfolding remove_from
  remove_from-one has_block s s' [] txs' e = omega arith
  remove_from-one has_block s s' (tx ∷ txs) txs' e =
      let ((invalid, s1), _, e1) =
        first_step (is_invalid ops crypto has_block s tx) _ (txs', s') e in
      remove_step invalid tx txs s1 (remove_from ops crypto has_block s1 txs) txs' s'
        (λ rest s2 f. remove_from-one has_block s1 s2 txs rest f) e1

  -- RemoveInvalid takes one transaction off the pool at most, however many are invalid.
  pub remove_invalid-one :
      (has_block : Bool) (p p' : TxPool T)
      → remove_invalid ops crypto has_block p ≡ ok p'
      → length p.txs ≤ suc (length p'.txs)
  unfolding remove_invalid
  remove_invalid-one has_block p p' e =
      let ((txs, s), f, e1) = first_step (remove_from ops crypto has_block p.state p.txs) _ p' e in
      subst (λ (q : TxPool T). length p.txs ≤ suc (length q.txs))
        (ok_same (record { txs = txs; state = s }) p' e1)
        (remove_from-one has_block p.state s p.txs txs f)
