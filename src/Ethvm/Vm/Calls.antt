-- ===== src/Ethvm/Vm/Calls.antt =====
-- ethvm/vm.go: `CREATE` and `CALL`, which run another closure. `run` is `RunClosure`, on a frame, the
-- gas and the world.
pub mod Reverts
use eth_go.Common.{
  ℕ, ◌+◌, ◌%◌, ◌^◌, List, [], ◌∷◌, drop, true, false, Option, none, some, if◌then◌else◌, Result, ok,
  ◌>>=◌,
}
use eth_go.Common.Int.{ℤ, pos, ltb_ℤ, ◌+ℤ◌, ◌-ℤ◌}
use eth_go.Ethutil.Item.{num, uint64, bytes, slice, items_of}
use eth_go.Ethutil.Bytes.{from_bytes}
use eth_go.Ethutil.Rlp.{encode}
use eth_go.Ethstate.Trie.{TrieOps}
use eth_go.Ethstate.Object.{add_amount, sub_amount}
use eth_go.Ethstate.Accounts.{
  State, Snapshot, get_state_object, get_or_new_state_object, new_account, copy_state, set_state,
}
use eth_go.Ethvm.Words.{int64_of, big_of}
use eth_go.Ethvm.Stack.{Stack, require, pop, popn, push as push_word}
use eth_go.Ethvm.Vm.{
  Message, World, Frame, Machine, Outcome, next, no_end, no_fuel, Returned, returned, forever,
  cut_off, recover,
}
use eth_go.Ethvm.Vm.Offsets.{mem_get, mem_set}
use eth_go.Ethvm.Vm.Cost.{set_object_state}
use eth_go.Ethvm.Vm.Accounts.{add_message, change_message, change_object, word_bytes}

-- `CreateAddress` of ethcrypto/crypto.go.
unfoldable pub create_address : (List ℕ → List ℕ) → List ℕ → ℕ → List ℕ
create_address sha3 b nonce =
    drop 12 (sha3 (encode (slice (items_of (bytes b ∷ num uint64 (pos nonce) ∷ [])))))

abbrev pub new_message : List ℕ → List ℕ → List ℕ → ℤ → Message
new_message to from input value = record {
  to = to;
  from = from;
  input = input;
  output = [];
  value = value;
  changed_addresses = [];
}

module _ {T : Type 0} where
  -- `closure.ReturnGas`
  unfoldable pub give_back : ℤ → Machine T → Machine T
  give_back amount m = record m { gas = m.gas +ℤ amount; used_gas = m.used_gas -ℤ amount }

  -- A word on the stack, the next instruction, and a world.
  abbrev pub pushed : ℤ → Stack → World T → Machine T → Machine T
  pushed z st w m = record m { stack = push_word z st; pc = m.pc +ℤ pos 1; world = w }

  -- Money from one object to another.
  unfoldable pub transfer : ℕ → ℕ → ℤ → World T → World T
  unfolding sub_amount add_amount
  transfer from to amount w =
      change_object to (λ o. add_amount o amount) (change_object from (λ o. sub_amount o amount) w)

  abbrev pub set_output : ℕ → List ℕ → World T → World T
  set_output i out w = change_message i (λ msg. record msg { output = out }) w

  -- After the closure of a `CALL`: the gas that is left is back, a failure resets the state.
  unfoldable pub call_returned : Machine T → Stack → ℕ → ℤ → ℤ → Snapshot T → Returned T → Outcome T
  unfolding give_back set_state mem_set int64_of change_message push_word
  call_returned m st message ret_offset ret_size snapshot (returned true ret left w) =
      let w' = set_object_state w (set_state w.state snapshot) in
      next (pushed (big_of false) st (set_output message ret w') (give_back left m))
  call_returned m st message ret_offset ret_size snapshot (returned false ret left w) =
      let m' : Machine T = record (give_back left m) { world = w } in
      recover m' (mem_set (int64_of ret_offset) (int64_of ret_size) ret m.mem)
        (λ mem. next (pushed (big_of true) st (set_output message ret w) (record m' { mem = mem })))
  call_returned m st message ret_offset ret_size snapshot forever = no_end
  call_returned m st message ret_offset ret_size snapshot cut_off = no_fuel

  -- After the closure of a `CREATE`: what it returned is the code of the contract.
  unfoldable pub create_returned :
      Machine T → Stack → ℕ → ℕ → List ℕ → Snapshot T → Returned T → Outcome T
  unfolding give_back set_state change_message push_word from_bytes
  create_returned m st message contract addr snapshot (returned true ret left w) =
      let w' = set_object_state w (set_state w.state snapshot) in
      next (pushed (big_of false) st w' (give_back left m))
  create_returned m st message contract addr snapshot (returned false ret left w) =
      let w' = set_output message ret (change_object contract (λ o. record o { code = ret }) w) in
      next (pushed (pos (from_bytes addr)) st w' (give_back left m))
  create_returned m st message contract addr snapshot forever = no_end
  create_returned m st message contract addr snapshot cut_off = no_fuel

unfoldable pub gas_word : Stack → Result (ℤ × Stack)
unfolding require pop
gas_word st = do _ ← require 7 st; pop st

-- The other words of `CALL`, and the arguments from the memory.
unfoldable pub call_words :
    {T : Type 0} → Machine T → Stack → Result (Stack × ℤ × ℤ × List ℕ × ℤ × ℤ)
unfolding popn mem_get int64_of
call_words m st1 = do
  (value, addr, st2) ← popn st1
  (in_size, in_offset, st3) ← popn st2
  (ret_size, ret_offset, st4) ← popn st3
  args ← mem_get (int64_of in_offset) (int64_of in_size) m.mem
  ok (st4, value, addr, args, ret_offset, ret_size)

module _ {T : Type 0} (ops : TrieOps T) (sha3 : List ℕ → List ℕ) where
  -- The nonce, the message and the object of the new contract.
  unfoldable pub create_account : Frame → List ℕ → ℤ → World T → ℕ × ℕ × World T
  unfolding add_message new_account
  create_account f addr value w0 =
      let counted = change_object f.object (λ o. record o { nonce = (o.nonce + 1) % 2 ^ 64 }) w0 in
      let from = (w0.state.heap f.object).addr in
      let (message, w) = add_message (new_message addr from [] value) counted in
      let (contract, s) = new_account ops sha3 w.state addr in
      (message, contract, set_object_state w s)

  -- The words of `CREATE`, and whether the new address is taken.
  unfoldable pub create_words : Machine T → List ℕ → Result (Stack × ℤ × ℤ × ℤ × Option ℕ × State T)
  unfolding require pop popn get_state_object
  create_words m addr = do
    _ ← require 3 m.stack
    (value, st1) ← pop m.stack
    (size, offset, st) ← popn st1
    (found, s) ← get_state_object ops sha3 m.world.state addr
    ok (st, value, offset, size, found, s)

module _ {T : Type 0} (ops : TrieOps T) (sha3 : List ℕ → List ℕ)
    (run : Frame → ℤ → World T → Returned T) where
  -- `CALL`, from where the balance is enough.
  unfoldable pub enter_call : Frame → Machine T → Stack → ℕ → ℤ → ℤ → ℤ → List ℕ → ℤ → ℤ → Outcome T
  unfolding get_or_new_state_object copy_state transfer call_returned
  enter_call f m st message gas value addr args ret_offset ret_size =
      recover m (get_or_new_state_object ops sha3 m.world.state (word_bytes addr)) (λ found.
        let (callee, s) = found in
        let w = transfer f.object callee value (set_object_state m.world s) in
        let frame : Frame = record {
          object = callee;
          message = message;
          code = (w.state.heap callee).code;
          args = args;
          price = f.price;
          caller = (w.state.heap f.object).addr;
        } in
        call_returned m st message ret_offset ret_size (copy_state ops m.world.state)
          (run frame gas w))

  -- `CALL`, from where its words are off the stack.
  unfoldable pub call_with : Frame → Machine T → Stack → ℤ → ℤ → ℤ → List ℕ → ℤ → ℤ → Outcome T
  unfolding add_message enter_call give_back
  call_with f m st gas value addr args ret_offset ret_size =
      let from = m.world.state.heap f.object in
      let (message, w) = add_message (new_message (word_bytes addr) from.addr args value) m.world in
      let m' : Machine T = record m { world = w } in
      if ltb_ℤ from.balance value
      then next (pushed (big_of false) st w (give_back gas m'))
      else enter_call f m' st message gas value addr args ret_offset ret_size

  -- `CALL`, from where its gas is off the stack.
  unfoldable pub call_from : Frame → Machine T → ℤ × Stack → Outcome T
  unfolding popn call_words call_with
  call_from f m (gas, st1) =
      recover m (call_words m st1) (λ (st, value, addr, args, ret_offset, ret_size).
        call_with f m st gas value addr args ret_offset ret_size)

  unfoldable pub call_step : Frame → Machine T → Outcome T
  unfolding gas_word call_from
  call_step f m = recover m (gas_word m.stack) (call_from f m)

  -- `CREATE`, where the contract has got the money, and its code is known: it gets all gas.
  unfoldable pub create_run :
      Frame → Machine T → Stack → ℕ → ℕ → List ℕ → Snapshot T → List ℕ → Outcome T
  unfolding change_message create_returned
  create_run f m st message contract addr snapshot init_code =
      let w = change_message message (λ msg. record msg { input = init_code }) m.world in
      let frame : Frame = record {
        object = contract;
        message = message;
        code = init_code;
        args = [];
        price = f.price;
        caller = (w.state.heap f.object).addr;
      } in
      create_returned (record m { gas = pos 0; world = w }) st message contract addr snapshot
        (run frame m.gas w)

  -- `CREATE`, where the contract has its object: a new one has no balance.
  unfoldable pub enter_create :
      Frame → Machine T → Stack → ℕ → ℕ → List ℕ → Snapshot T → ℤ → ℤ → ℤ → Outcome T
  unfolding transfer mem_get int64_of create_run push_word set_state
  enter_create f m st message contract addr snapshot value offset size =
      if ltb_ℤ (m.world.state.heap contract).balance value
      then (let w = set_object_state m.world (set_state m.world.state snapshot) in
          next (pushed (big_of false) st w m))
      else (let paid : Machine T = record m { world = transfer f.object contract value m.world } in
          recover paid (mem_get (int64_of offset) (int64_of size) m.mem)
            (create_run f paid st message contract addr snapshot))

  -- `CREATE`, from where it knows whether the new address is taken: then its loop, which does not
  -- change `addr`, never ends.
  unfoldable pub create_at :
      Frame → Machine T → Stack → Snapshot T → List ℕ → ℤ → ℤ → ℤ → Option ℕ → State T → Outcome T
  unfolding create_account enter_create
  create_at f m st snapshot addr value offset size (some h) s = no_end
  create_at f m st snapshot addr value offset size none s =
      let (message, contract, w) =
        create_account ops sha3 f addr value (set_object_state m.world s) in
      enter_create f (record m { world = w }) st message contract addr snapshot value offset size

  unfoldable pub create_step : Frame → Machine T → Outcome T
  unfolding create_address copy_state create_words create_at
  create_step f m =
      let from = m.world.state.heap f.object in
      let addr = create_address sha3 from.addr from.nonce in
      recover m (create_words ops sha3 m addr) (λ (st, value, offset, size, found, s).
        create_at f m st (copy_state ops m.world.state) addr value offset size found s)
