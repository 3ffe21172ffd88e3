-- ===== src/Ethchain/Transition/Failed.antt =====
-- A run of code that fails: the refund of the gas that is left misses the state.
use eth_go.Common.{
  ℕ, ◌<◌, ◌≡◌, refl, ap, ◌∙◌, arith, List, Bool, false, ◌==◌, if◌then◌else◌, none, some, lookup,
}
use eth_go.Ethstate.Object.{StateObject, add_amount, refund_gas}
use eth_go.Common.Int.{◌*ℤ◌}
use eth_go.Ethstate.Trie.{TrieOps}
use eth_go.Ethstate.Accounts.{State, copy_state}
use eth_go.Ethstate.Accounts.Snapshots.{set_state-copy_state}
use eth_go.Ethchain.Transaction.{Transaction}
use eth_go.Ethchain.Transition.{Transition, Err, change, refund_to, settle}

module _ {T : Type 0} where
  change_other :
      (f : StateObject T → StateObject T) (h q : ℕ) (t : Transition T)
      → h < q
      → (change f h t).state.heap q ≡ t.state.heap q
  unfolding change
  change_other f h q t lt = other (q == h) _ _ (ground arith)
    where
      other : (b : Bool) (x y : StateObject T) → b ≡ false → (if b then x else y) ≡ y
      other b x y e = rw e refl

  refund_to_other :
      (tx : Transaction) (c s q : ℕ) (t : Transition T)
      → c < q
      → s < q
      → (refund_to tx c s t).state.heap q ≡ t.state.heap q
  unfolding refund_to
  refund_to_other tx c s q t hc hs =
      let price = t.gas *ℤ tx.gas_price in
      let given = λ (o : StateObject T). refund_gas o t.gas tx.gas_price in
      change_other (λ o. add_amount o price) s q (change given c t) hs ∙ change_other given c q t hc

  -- After a run that failed, with any gas left, and after the refund of it, every account that the
  -- snapshot had has the balance of the snapshot: the coinbase has given nothing back and the sender
  -- has got nothing, as the refund is to the objects at the handles from before.
  pub refund_to-settle :
      (ops : TrieOps T) (tx : Transaction) (err : Err) (u : Transition T) (w : State T) (c s : ℕ)
      (a : List ℕ) (h : ℕ) (done : List ℕ → Transition T → Transition T)
      → c < u.state.next
      → s < u.state.next
      → lookup w.state_objects a ≡ some h
      → let t = refund_to tx c s (settle err (copy_state ops w) done (none, u)).1 in
        (h' : ℕ) × (lookup t.state.state_objects a ≡ some h')
        × ((t.state.heap h').balance ≡ (w.heap h).balance)
  unfolding refund_to settle
  refund_to-settle ops tx err u w c s a h done hc hs e =
      let ((h', found, same, le, _), _, _) = set_state-copy_state ops w u.state a h e in
      (
        h',
        unfold change in found,
        ap StateObject.balance (
            refund_to_other tx c s h' (settle err (copy_state ops w) done (none, u)).1 (omega arith)
              (omega arith)
            ∙ same),
      )
