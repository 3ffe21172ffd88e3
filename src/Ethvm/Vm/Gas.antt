-- ===== src/Ethvm/Vm/Gas.antt =====
-- The gas of a closure never grows: what an instruction costs is taken off, and a closure that it
-- runs gives back no more than it got.
pub mod Calls
pub mod Floor
pub mod Pointers
use eth_go.Common.{
  ℕ, ◌+◌, ◌≤◌, ◌<◌, ◌≡◌, ◌≢◌, refl, arith, List, Bool, true, false, if◌then◌else◌, Option, none,
  some, Result, ok, panic, out_of_fuel, ◌>>=◌, first_step,
}
use eth_go.Common.Int.{ℤ, pos, negsuc, pos_part, ltb_ℤ, ◌+ℤ◌, ◌-ℤ◌}
use eth_go.Ethstate.Trie.{TrieOps}
use eth_go.Ethstate.Accounts.{State, Snapshot}
use eth_go.Ethvm.Words.{int64_of}
use eth_go.Ethvm.Stack.{Stack, pop, popn, peek, require, from_top}
use eth_go.Ethvm.Vm.{
  Env, World, Frame, Machine, Outcome, next, stop as stopped, failed, no_end, no_fuel, Returned,
  returned, forever, cut_off, recover,
}
use eth_go.Ethvm.Vm.Instruction.{
  Instruction, stop, suicide, sload, sstore, balance, mstore, mload, mstore8, return,
  sha3 as sha3_code, calldatacopy, codecopy, call, create, neg, not, byte, addmod, mulmod,
  calldataload, pop as pop_code, jump, jumpi, log, binary, info, push, dup, swap, invalid,
}
use eth_go.Ethvm.Vm.Calls.{
  call_returned, create_returned, enter_call, call_with, call_step, enter_create, create_at,
  create_step, give_back,
}
use eth_go.Ethvm.Vm.Execute.{execute}
use eth_go.Ethvm.Vm.NoCut.{
  NoCut, returns, panics, NoCut-bind, NoCut-get_or_new, NoCut-get_state_object, Bounded, plain,
}
use eth_go.Ethvm.Vm.NoCut.Steps.{
  NoCut-binary_step, NoCut-neg_step, NoCut-not_step, NoCut-byte_step, NoCut-modular_step,
  NoCut-sha3_step, NoCut-calldataload_step, NoCut-copy_step, NoCut-push_step, NoCut-pop_step,
  NoCut-dup_step, NoCut-swap_step, NoCut-mload_step, NoCut-mstore_step, NoCut-mstore8_step,
  NoCut-jump_step, NoCut-jumpi_step, NoCut-return_step, NoCut-pop, NoCut-popn, NoCut-require,
  NoCut-mem_get, NoCut-mem_set, words,
}
use eth_go.Ethvm.Vm.NoCut.World.{
  NoCut-sload_step, NoCut-sstore_step, NoCut-balance_step, NoCut-suicide_step, NoCut-cost,
  NoCut-fetch,
}

-- The gas that `CALL` asks for.
abbrev pub asked : Result ℤ → ℕ
asked (ok top) = pos_part top
asked _ = 0

-- An outcome that is not out of fuel, and has at most `g` gas left.
pub data Below {T : Type 0} (g : ℕ) : Outcome T → Type 0 where
  next_below : (m : Machine T) → pos_part m.gas ≤ g → Below g (next m)
  stop_below : (ret : List ℕ) (m : Machine T) → pos_part m.gas ≤ g → Below g (stopped ret m)
  failed_below : (m : Machine T) → pos_part m.gas ≤ g → Below g (failed m)
  no_end_below : Below g no_end

-- The same of what a closure returns.
pub data Ends {T : Type 0} (g : ℕ) : Returned T → Type 0 where
  returned_ends :
      (b : Bool) (ret : List ℕ) (left : ℤ) (w : World T)
      → pos_part left ≤ g
      → Ends g (returned b ret left w)
  forever_ends : Ends g forever

pub Below-recover :
    {T A : Type 0} (g : ℕ) (m : Machine T) (r : Result A) (k : A → Outcome T)
    → pos_part m.gas ≤ g
    → NoCut r
    → ((a : A) → r ≡ ok a → Below g (k a))
    → Below g (recover m r k)
Below-recover g m (ok a) k le h f = f a refl
Below-recover g m panic k le h f = failed_below m le
Below-recover g m out_of_fuel k le h f = elim h [ ]

-- `Below-recover` where nothing is known of the result.
Below-any :
    {T A : Type 0} (m : Machine T) (r : Result A) (k : A → Outcome T)
    → NoCut r
    → ((a : A) → Below (pos_part m.gas) (k a))
    → Below (pos_part m.gas) (recover m r k)
Below-any m r k h f = Below-recover _ m r k (omega arith) h (λ a e. f a)

same_gas : {T : Type 0} (m : Machine T) → pos_part m.gas ≤ pos_part m.gas
same_gas m = omega arith

module _ {T : Type 0} (ops : TrieOps T) (sha3 : List ℕ → List ℕ) (env : Env)
    (run : Frame → ℤ → World T → Returned T) (fits : Bounded ops) where
  ruleset keeps = (
    Below-any, next_below, stop_below, failed_below, same_gas, NoCut-binary_step, NoCut-neg_step,
    NoCut-not_step, NoCut-byte_step, NoCut-modular_step, NoCut-sha3_step, NoCut-calldataload_step,
    NoCut-copy_step, NoCut-push_step, NoCut-pop_step, NoCut-dup_step, NoCut-swap_step,
    NoCut-mload_step, NoCut-mstore_step, NoCut-mstore8_step, NoCut-jump_step, NoCut-jumpi_step,
    NoCut-return_step, NoCut-sstore_step,
  )

  -- An instruction that runs no closure keeps the gas as it is.
  pub execute-Below :
      (f : Frame) (i : Instruction) (m : Machine T)
      → i ≢ call
      → i ≢ create
      → Below (pos_part m.gas) (execute ops sha3 env run f i m)
  unfolding execute
  execute-Below f log m h k = search keeps
  execute-Below f neg m h k = search keeps
  execute-Below f not m h k = search keeps
  execute-Below f byte m h k = search keeps
  execute-Below f addmod m h k = search keeps
  execute-Below f mulmod m h k = search keeps
  execute-Below f sha3_code m h k = search keeps
  execute-Below f calldataload m h k = search keeps
  execute-Below f calldatacopy m h k = search keeps
  execute-Below f codecopy m h k = search keeps
  execute-Below f pop_code m h k = search keeps
  execute-Below f mload m h k = search keeps
  execute-Below f mstore m h k = search keeps
  execute-Below f mstore8 m h k = search keeps
  execute-Below f sstore m h k = search keeps
  execute-Below f jump m h k = search keeps
  execute-Below f jumpi m h k = search keeps
  execute-Below f return m h k = search keeps
  execute-Below f stop m h k = search keeps
  execute-Below f (binary op) m h k = search keeps
  execute-Below f (info i) m h k = search keeps
  execute-Below f (push n) m h k = search keeps
  execute-Below f (dup n) m h k = search keeps
  execute-Below f (swap n) m h k = search keeps
  execute-Below f (invalid op) m h k = search keeps
  execute-Below f sload m h k = search (keeps, NoCut-sload_step ops fits)
  execute-Below f balance m h k = search (keeps, NoCut-balance_step ops fits sha3)
  execute-Below f suicide m h k = search (keeps, NoCut-suicide_step ops fits sha3)
  execute-Below f call m h k = absurd (h refl)
  execute-Below f create m h k = absurd (k refl)
