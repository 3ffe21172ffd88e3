-- ===== src/Ethvm/Vm/Execute.antt =====
-- ethvm/vm.go: the second `switch` of the loop.
use eth_go.Common.{ℕ, List, [], Result}
use eth_go.Common.Int.{ℤ, pos, ◌+ℤ◌, ◌*ℤ◌}
use eth_go.Ethstate.Trie.{TrieOps}
use eth_go.Ethvm.Stack.{Stack, push as push_word}
use eth_go.Ethvm.Memory.{Memory}
use eth_go.Ethvm.Vm.{
  Env, World, Frame, Machine, Outcome, next, stop as stopped, failed, Returned, recover,
}
use eth_go.Ethvm.Vm.Instruction.{
  Instruction, stop, neg, not, byte, addmod, mulmod, sha3 as sha3_code, balance, calldataload,
  calldatacopy, codecopy, pop as pop_code, mload, mstore, mstore8, sload, sstore, jump, jumpi,
  create, call, return, log, suicide, binary, info, push, dup, swap, invalid,
}
use eth_go.Ethvm.Vm.Arithmetic.{binary_step, neg_step, not_step, byte_step, modular_step}
use eth_go.Ethvm.Vm.Offsets.{copy_step, sha3_step, mload_step, mstore_step, mstore8_step, push_step}
use eth_go.Ethvm.Vm.Accounts.{sstore_step, sload_step, balance_step, suicide_step}
use eth_go.Ethvm.Vm.Calls.{call_step, create_step}
use eth_go.Ethvm.Vm.Steps.{
  pop_step, dup_step, swap_step, calldataload_step, jump_step, jumpi_step, return_step, info_word,
}

module _ {T : Type 0} where
  -- The instruction behind this one.
  abbrev pub onward : Machine T → Outcome T
  onward m = next (record m { pc = m.pc +ℤ pos 1 })

  abbrev pub on_stack : Machine T → Result Stack → Outcome T
  on_stack m r = recover m r (λ st. onward (record m { stack = st }))

  abbrev pub on_memory : Machine T → Result (Stack × Memory) → Outcome T
  on_memory m r = recover m r (λ (st, mem). onward (record m { stack = st; mem = mem }))

  abbrev pub on_world : Machine T → Result (Stack × World T) → Outcome T
  on_world m r = recover m r (λ (st, w). onward (record m { stack = st; world = w }))

module _ {T : Type 0} (ops : TrieOps T) (sha3 : List ℕ → List ℕ) (env : Env)
    (run : Frame → ℤ → World T → Returned T) where
  unfoldable pub execute : Frame → Instruction → Machine T → Outcome T
  unfolding binary_step neg_step not_step byte_step modular_step info_word copy_step sha3_step
      mload_step mstore_step mstore8_step push_step sstore_step sload_step balance_step suicide_step
      call_step create_step pop_step dup_step swap_step calldataload_step jump_step jumpi_step
      return_step push_word
  execute f log m = onward m
  execute f (binary op) m = on_stack m (binary_step op m.stack)
  execute f neg m = on_stack m (neg_step m.stack)
  execute f not m = on_stack m (not_step m.stack)
  execute f byte m = on_stack m (byte_step m.stack)
  execute f addmod m = on_stack m (modular_step ◌+ℤ◌ m.stack)
  execute f mulmod m = on_stack m (modular_step ◌*ℤ◌ m.stack)
  execute f sha3_code m = on_memory m (sha3_step sha3 m.stack m.mem)
  execute f (info i) m = onward (record m { stack = push_word (info_word env f m i) m.stack })
  execute f balance m = on_world m (balance_step ops sha3 m.stack m.world)
  execute f calldataload m = on_stack m (calldataload_step f.args m.stack)
  execute f calldatacopy m = on_memory m (copy_step f.args m.stack m.mem)
  execute f codecopy m = on_memory m (copy_step f.code m.stack m.mem)
  execute f (push n) m =
      recover m (push_step f.code n m.pc m.stack)
        (λ (at, st). onward (record m { stack = st; pc = at }))
  execute f pop_code m = on_stack m (pop_step m.stack)
  execute f (dup n) m = on_stack m (dup_step n m.stack)
  execute f (swap n) m = on_stack m (swap_step n m.stack)
  execute f mload m = on_memory m (mload_step m.stack m.mem)
  execute f mstore m = on_memory m (mstore_step m.stack m.mem)
  execute f mstore8 m = on_memory m (mstore8_step m.stack m.mem)
  execute f sload m = on_world m (sload_step ops f.object m.stack m.world)
  execute f sstore m = on_world m (sstore_step f.object f.message m.stack m.world)
  execute f jump m =
      recover m (jump_step m.stack) (λ (at, st). next (record m { stack = st; pc = at }))
  execute f jumpi m =
      recover m (jumpi_step m.pc m.stack) (λ (at, st). next (record m { stack = st; pc = at }))
  execute f create m = create_step ops sha3 run f m
  execute f call m = call_step ops sha3 run f m
  execute f return m = recover m (return_step m.stack m.mem) (λ ret. stopped ret m)
  execute f suicide m =
      recover m (suicide_step ops sha3 f.object m.stack m.world)
        (λ w. stopped [] (record m { world = w }))
  execute f stop m = stopped [] m
  execute f (invalid op) m = failed m
