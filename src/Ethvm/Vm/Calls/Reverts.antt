-- ===== src/Ethvm/Vm/Calls/Reverts.antt =====
-- What a closure that fails, or is not run at all, leaves behind.
use eth_go.Common.{
  ℕ, ◌<◌, ◌≡◌, refl, sym, ap, subst, arith, ok, List, true, false, none, some, ==_iff, lookup,
}
use eth_go.Common.Int.{ℤ, pos, ltb_ℤ, ◌+ℤ◌, ◌-ℤ◌}
use eth_go.Ethstate.Trie.{TrieOps}
use eth_go.Ethstate.Object.{StateObject, new_state_object}
use eth_go.Ethstate.Accounts.{
  State, Snapshot, get_or_new_state_object, copy_state, set_state, new_account,
}
use eth_go.Ethstate.Accounts.Snapshots.{set_state-copy_state, set_state_trie}
use eth_go.Ethvm.Stack.{Stack, push}
use eth_go.Ethvm.Vm.{World, Frame, Machine, Outcome, next, Returned, returned}
use eth_go.Ethvm.Vm.Accounts.{add_message, change_message, word_bytes}
use eth_go.Ethvm.Vm.Cost.{set_object_state}
use eth_go.Ethvm.Vm.Calls.{
  new_message, transfer, give_back, call_returned, enter_call, call_with, create_at, enter_create,
  create_account, pushed,
}

-- The outcome is the next instruction, with 0 pushed and the gas changed by `gained`, in a state that
-- has each account of the state `s` under its address with the balance, the nonce, the code and the
-- storage that it had in `s`, and the copy of the trie of `s`.
abbrev pub RevertsTo :
    {T : Type 0} → TrieOps T → State T → Machine T → Stack → ℤ → Outcome T → Type 0
RevertsTo {T} ops s m st gained o =
    (m' : Machine T) × (o ≡ next m')
    × (m'.stack ≡ push (pos 0) st)
    × (m'.pc ≡ m.pc +ℤ pos 1)
    × (m'.gas ≡ m.gas +ℤ gained)
    × (m'.used_gas ≡ m.used_gas -ℤ gained)
    × (m'.world.state.trie ≡ ops.copy s.trie)
    × ((a : List ℕ) (h : ℕ)
        → lookup s.state_objects a ≡ some h
        → (h' : ℕ) × (lookup m'.world.state.state_objects a ≡ some h')
          × ((m'.world.state.heap h').balance ≡ (s.heap h).balance)
          × ((m'.world.state.heap h').nonce ≡ (s.heap h).nonce)
          × ((m'.world.state.heap h').code ≡ (s.heap h).code)
          × ((m'.world.state.heap h').storage ≡ (s.heap h).storage))

call_returned-RevertsTo :
    {T : Type 0} (ops : TrieOps T) (m : Machine T) (st : Stack) (message : ℕ) (off size : ℤ)
    (s : State T) (ret : List ℕ) (left : ℤ) (w : World T)
    → RevertsTo ops s m st left
        (call_returned m st message off size (copy_state ops s) (returned true ret left w))
unfolding call_returned give_back change_message
call_returned-RevertsTo ops m st message off size s ret left w = (
  _,
  refl,
  refl,
  refl,
  refl,
  refl,
  set_trie,
  λ a h e.
      let ((h', found, same, fresh, old), kept, trie) = set_state-copy_state ops s w.state a h e in
      (
        h',
        found,
        ap StateObject.balance same,
        ap StateObject.nonce same,
        ap StateObject.code same,
        ap StateObject.storage same,
      ),
)
  where
    set_trie : (set_state w.state (copy_state ops s)).trie ≡ ops.copy s.trie
    set_trie = set_state_trie ops s w.state

module _ {T : Type 0} (ops : TrieOps T) (sha3 : List ℕ → List ℕ)
    (run : Frame → ℤ → World T → Returned T) where
  -- The closure that `CALL` runs, as `enter_call` has it, and the world that it is run in, where the
  -- value has been paid.
  abbrev pub callee_frame : Frame → ℕ → ℕ → List ℕ → World T → Frame
  callee_frame f message callee args w = record {
    object = callee;
    message = message;
    code = (w.state.heap callee).code;
    args = args;
    price = f.price;
    caller = (w.state.heap f.object).addr;
  }

  abbrev pub paid_world : Frame → World T → ℕ → ℤ → State T → World T
  paid_world f w callee value s = transfer f.object callee value (set_object_state w s)

  enter_call-RevertsTo :
      (f : Frame) (m : Machine T) (st : Stack) (message : ℕ) (gas value addr : ℤ) (args : List ℕ)
      (off size : ℤ) (callee : ℕ) (s : State T) (ret : List ℕ) (left : ℤ) (w : World T)
      → get_or_new_state_object ops sha3 m.world.state (word_bytes addr) ≡ ok (callee, s)
      → let paid = paid_world f m.world callee value s in
        run (callee_frame f message callee args paid) gas paid ≡ returned true ret left w
        → RevertsTo ops m.world.state m st left
            (enter_call ops sha3 run f m st message gas value addr args off size)
  unfolding enter_call
  enter_call-RevertsTo f m st message gas value addr args off size callee s ret left w found fails =
      rw (found, fails) (call_returned-RevertsTo ops m st message off size m.world.state ret left w)

  -- A CALL that has the balance for its value and whose closure fails, whatever that did: 0 is pushed,
  -- the next instruction follows, and the gas that the closure left comes back. The state is that of
  -- the time before the CALL: its trie is the copy of the trie of then, and each account that it then
  -- had is there with its balance, the value that was paid included, its nonce, its code and its
  -- storage.
  pub call_with-RevertsTo :
      (f : Frame) (m : Machine T) (st : Stack) (gas value addr : ℤ) (args : List ℕ) (off size : ℤ)
      (callee : ℕ) (s : State T) (ret : List ℕ) (left : ℤ) (w : World T)
      → ltb_ℤ (m.world.state.heap f.object).balance value ≡ false
      → get_or_new_state_object ops sha3 m.world.state (word_bytes addr) ≡ ok (callee, s)
      → let (message, called) =
          add_message
            (new_message (word_bytes addr) (m.world.state.heap f.object).addr args value)
            m.world in
        let paid = paid_world f called callee value s in
        run (callee_frame f message callee args paid) gas paid ≡ returned true ret left w
        → RevertsTo ops m.world.state m st left
            (call_with ops sha3 run f m st gas value addr args off size)
  unfolding call_with add_message
  call_with-RevertsTo f m st gas value addr args off size callee s ret left w rich found fails =
      let from = m.world.state.heap f.object in
      let (message, called) =
        add_message (new_message (word_bytes addr) from.addr args value) m.world in
      rw rich (
        enter_call-RevertsTo f (record m { world = called }) st message gas value addr args off size
          callee s ret left w found fails)

module _ {T : Type 0} (ops : TrieOps T) (sha3 : List ℕ → List ℕ)
    (run : Frame → ℤ → World T → Returned T) where
  enter_create_poor :
      (f : Frame) (m : Machine T) (st : Stack) (message contract : ℕ) (addr : List ℕ)
      (c : Snapshot T) (z off size : ℤ)
      → ltb_ℤ (m.world.state.heap contract).balance z ≡ true
      → enter_create ops sha3 run f m st message contract addr c z off size
        ≡ next (pushed (pos 0) st (set_object_state m.world (set_state m.world.state c)) m)
  unfolding enter_create
  enter_create_poor f m st message contract addr c z off size e = rw e refl

  new_balance :
      (f : Frame) (addr : List ℕ) (z : ℤ) (w : World T)
      → let (message, contract, w') = create_account ops sha3 f addr z w in
        (w'.state.heap contract).balance ≡ pos 0
  unfolding create_account new_account new_state_object
  new_balance f addr z w = rw ((==_iff w.state.next w.state.next).1 refl) refl

  -- A CREATE of a free address with a value above 0 never makes a contract: it pushes 0, keeps the
  -- gas and sets the state back to the snapshot, whatever the balance of the creator.
  pub create_at_value :
      (f : Frame) (m : Machine T) (st : Stack) (c : Snapshot T) (addr : List ℕ) (n : ℕ)
      (off size : ℤ) (s : State T)
      → 0 < n
      → (m' : Machine T) × (now : State T) × (create_at ops sha3 run f m st c addr
            (pos n)
            off
            size
            none
            s
          ≡ next m')
        × (m'.stack ≡ push (pos 0) st)
        × (m'.gas ≡ m.gas)
        × (m'.world.state ≡ set_state now c)
  unfolding create_at
  create_at_value f m st c addr n off size s h =
      let (message, contract, w) =
        create_account ops sha3 f addr (pos n) (set_object_state m.world s) in
      let zero_balance = new_balance f addr (pos n) (set_object_state m.world s) in
      (
        pushed (pos 0) st (set_object_state w (set_state w.state c)) (record m { world = w }),
        w.state,
        enter_create_poor f (record m { world = w }) st message contract addr c (pos n) off size
            (subst (λ b. ltb_ℤ b (pos n) ≡ true) (sym zero_balance) (ground arith)),
        refl,
        refl,
        refl,
      )
