-- ===== src/Ethvm/Vm/Gas/Calls.antt =====
-- `CALL` and `CREATE`: the gas that comes back is no more than the gas that went.
use eth_go.Common.{
  ℕ, ◌+◌, ◌≤◌, ◌<◌, ◌≡◌, sym, subst, ap, arith, List, true, false, Bool-cases, inl, inr, Option,
  none, some, length, ◌-◌, slice as slice_of, ok, first_step,
}
use eth_go.Common.Int.{ℤ, pos, pos_part, ltb_ℤ, ◌+ℤ◌}
use eth_go.Ethstate.Trie.{TrieOps}
use eth_go.Ethstate.Accounts.{State, Snapshot, copy_state}
use eth_go.Ethvm.Stack.{Stack, pop, peek, require, from_top}
use eth_go.Ethvm.Vm.{World, Frame, Machine, Returned, returned, forever, cut_off}
use eth_go.Ethvm.Vm.Calls.{
  transfer, call_returned, create_returned, enter_call, call_with, gas_word, call_words, call_from,
  call_step, create_run, enter_create, create_account, create_at, create_address, create_words,
  create_step, give_back,
}
use eth_go.Ethvm.Vm.Accounts.{change_message}
use eth_go.Ethvm.Vm.Cost.{set_object_state}
use eth_go.Ethvm.Vm.NoCut.{NoCut, NoCut-get_or_new, NoCut-get_state_object, Bounded}
use eth_go.Ethvm.Vm.NoCut.Steps.{NoCut-mem_get, NoCut-mem_set, words}
use eth_go.Ethvm.Vm.Gas.{asked, Below, next_below, no_end_below, Ends, returned_ends, Below-recover}

add_bound : (a b : ℤ) → pos_part (a +ℤ b) ≤ pos_part a + pos_part b
unfolding ◌+ℤ◌
add_bound a b = ground arith

peek-pop : (st rest : Stack) (d : ℤ) → pop st ≡ ok (d, rest) → peek st ≡ ok d
unfolding pop peek
peek-pop st rest d h =
    let (a, e, h1) = first_step (from_top st 1) _ _ h in
    let (ws, e1, h2) = first_step (slice_of st.words 0 (length st.words - 1)) _ _ h1 in cc

-- The gas that `CALL` takes off the stack is the word that it has been charged for.
gas_word-peek : (st rest : Stack) (d : ℤ) → gas_word st ≡ ok (d, rest) → peek st ≡ ok d
unfolding gas_word
gas_word-peek st rest d h =
    let (u, e1, h1) = first_step (require 7 st) (λ u. pop st) _ h in peek-pop st rest d h1

NoCut-gas_word : (st : Stack) → NoCut (gas_word st)
unfolding gas_word
NoCut-gas_word st = search words

NoCut-call_words : {T : Type 0} (m : Machine T) (st : Stack) → NoCut (call_words m st)
unfolding call_words
NoCut-call_words m st = search (words, NoCut-mem_get) depth 9

module _ {T : Type 0} where
  call_returned-Below :
      (g t : ℕ) (m : Machine T) (st : Stack) (message : ℕ) (off size : ℤ) (c : Snapshot T)
      (r : Returned T)
      → Ends t r
      → pos_part m.gas + t ≤ g
      → Below g (call_returned m st message off size c r)
  unfolding call_returned give_back
  call_returned-Below g t m st message off size c (returned true ret left w)
        (returned_ends _ _ _ _ h) k =
      next_below _ (omega (arith, add_bound m.gas left))
  call_returned-Below g t m st message off size c (returned false ret left w)
        (returned_ends _ _ _ _ h) k =
      let le : pos_part (m.gas +ℤ left) ≤ g = omega (arith, add_bound m.gas left) in
      search (Below-recover, NoCut-mem_set, next_below, le)
  call_returned-Below g t m st message off size c forever h k = no_end_below
  call_returned-Below g t m st message off size c cut_off h k = elim h [ ]

  create_returned-Below :
      (g t : ℕ) (m : Machine T) (st : Stack) (message contract : ℕ) (addr : List ℕ) (c : Snapshot T)
      (r : Returned T)
      → Ends t r
      → pos_part m.gas + t ≤ g
      → Below g (create_returned m st message contract addr c r)
  unfolding create_returned give_back
  create_returned-Below g t m st message contract addr c (returned true ret left w)
        (returned_ends _ _ _ _ h) k =
      next_below _ (omega (arith, add_bound m.gas left))
  create_returned-Below g t m st message contract addr c (returned false ret left w)
        (returned_ends _ _ _ _ h) k =
      next_below _ (omega (arith, add_bound m.gas left))
  create_returned-Below g t m st message contract addr c forever h k = no_end_below
  create_returned-Below g t m st message contract addr c cut_off h k = elim h [ ]

-- `bound` is above the gas of every closure that is run.
module _ {T : Type 0} (ops : TrieOps T) (sha3 : List ℕ → List ℕ)
    (run : Frame → ℤ → World T → Returned T) (fits : Bounded ops) (bound : ℕ)
    (ends : (f : Frame) (g : ℤ) (w : World T)
      → pos_part g < bound
      → Ends (pos_part g) (run f g w)) where
  enter_call-Below :
      (f : Frame) (m : Machine T) (st : Stack) (message : ℕ) (gas z addr : ℤ) (args : List ℕ)
      (off size : ℤ)
      → pos_part gas < bound
      → Below
          (pos_part m.gas + pos_part gas)
          (enter_call ops sha3 run f m st message gas z addr args off size)
  unfolding enter_call
  enter_call-Below f m st message gas z addr args off size h =
      Below-recover _ m _ _ (omega arith) (NoCut-get_or_new ops sha3 fits _ _) (λ found e.
        call_returned-Below _ (pos_part gas) m st message off size (copy_state ops m.world.state) _
          (ends _ gas _ h) (omega arith))

  call_with-Below :
      (f : Frame) (m : Machine T) (st : Stack) (gas z addr : ℤ) (args : List ℕ) (off size : ℤ)
      → pos_part gas < bound
      → Below
          (pos_part m.gas + pos_part gas)
          (call_with ops sha3 run f m st gas z addr args off size)
  unfolding call_with give_back
  call_with-Below f m st gas z addr args off size h =
      elim (Bool-cases (ltb_ℤ (m.world.state.heap f.object).balance z)) [
        | inl e ↦ rw e (next_below _ (add_bound m.gas gas))
        | inr e ↦ rw e (enter_call-Below f _ st _ gas z addr args off size h)
      ]

  call_from-Below :
      (f : Frame) (m : Machine T) (gas : ℤ) (st1 : Stack)
      → pos_part gas < bound
      → Below (pos_part m.gas + pos_part gas) (call_from ops sha3 run f m (gas, st1))
  unfolding call_from
  call_from-Below f m gas st1 h =
      Below-recover _ m (call_words m st1) _ (omega arith) (NoCut-call_words m st1)
        (λ a e. call_with-Below f m a.0 gas a.1 a.2 a.3 a.4 a.5 h)

  pub call_step-Below :
      (f : Frame) (m : Machine T)
      → asked (peek m.stack) < bound
      → Below (pos_part m.gas + asked (peek m.stack)) (call_step ops sha3 run f m)
  unfolding call_step
  call_step-Below f m h =
      Below-recover _ m (gas_word m.stack) (call_from ops sha3 run f m) (omega arith)
        (NoCut-gas_word m.stack)
        (λ (gas, st1) e.
          let same : asked (peek m.stack) ≡ pos_part gas =
            ap asked (gas_word-peek m.stack st1 gas e) in
          subst (λ n. Below (pos_part m.gas + n) (call_from ops sha3 run f m (gas, st1))) (sym same)
            (call_from-Below f m gas st1 (omega arith)))

  create_run-Below :
      (f : Frame) (m : Machine T) (st : Stack) (message contract : ℕ) (addr : List ℕ)
      (c : Snapshot T) (code : List ℕ)
      → pos_part m.gas < bound
      → Below (pos_part m.gas) (create_run ops sha3 run f m st message contract addr c code)
  unfolding create_run
  create_run-Below f m st message contract addr c code h =
      let w = change_message message (λ msg. record msg { input = code }) m.world in
      create_returned-Below _ (pos_part m.gas) (record m { gas = pos 0; world = w }) st message
        contract addr c _ (ends _ m.gas w h) (omega arith)

  enter_create-Below :
      (f : Frame) (m : Machine T) (st : Stack) (message contract : ℕ) (addr : List ℕ)
      (c : Snapshot T) (z off size : ℤ)
      → pos_part m.gas < bound
      → Below (pos_part m.gas) (enter_create ops sha3 run f m st message contract addr c z off size)
  unfolding enter_create
  enter_create-Below f m st message contract addr c z off size h =
      elim (Bool-cases (ltb_ℤ (m.world.state.heap contract).balance z)) [
        | inl e ↦ rw e (next_below _ (omega arith))
        | inr e ↦
            (let paid : Machine T = record m { world = transfer f.object contract z m.world } in
              rw e (
                Below-recover _ paid _ (create_run ops sha3 run f paid st message contract addr c)
                  (omega arith) (NoCut-mem_get _ _ m.mem)
                  (λ code e. create_run-Below f paid st message contract addr c code h)))
      ]

  create_at-Below :
      (f : Frame) (m : Machine T) (st : Stack) (c : Snapshot T) (addr : List ℕ) (z off size : ℤ)
      (found : Option ℕ) (s : State T)
      → pos_part m.gas < bound
      → Below (pos_part m.gas) (create_at ops sha3 run f m st c addr z off size found s)
  unfolding create_at
  create_at-Below f m st c addr z off size (some h) s le = no_end_below
  create_at-Below f m st c addr z off size none s le =
      let made = create_account ops sha3 f addr z (set_object_state m.world s) in
      enter_create-Below f (record m { world = made.2 }) st made.0 made.1 addr c z off size le

  NoCut-create_words : (m : Machine T) (addr : List ℕ) → NoCut (create_words ops sha3 m addr)
  unfolding create_words
  NoCut-create_words m addr = search (words, NoCut-get_state_object ops sha3 fits) depth 9

  pub create_step-Below :
      (f : Frame) (m : Machine T)
      → pos_part m.gas < bound
      → Below (pos_part m.gas) (create_step ops sha3 run f m)
  unfolding create_step
  create_step-Below f m h =
      let from = m.world.state.heap f.object in
      let addr = create_address sha3 from.addr from.nonce in
      Below-recover _ m (create_words ops sha3 m addr) _ (omega arith) (NoCut-create_words m addr)
        (λ a e. create_at-Below f m a.0 (copy_state ops m.world.state) addr a.1 a.2 a.3 a.4 a.5 h)
