-- ===== src/Ethvm/Vm/NoCut/World.antt =====
-- The instructions on the accounts, and the cost of an instruction, return or panic.
use eth_go.Common.{ℕ, List, Option, none, some}
use eth_go.Common.Int.{ℤ}
use eth_go.Ethstate.Trie.{TrieOps}
use eth_go.Ethvm.Stack.{Stack}
use eth_go.Ethvm.Vm.{World, Frame, Machine}
use eth_go.Ethvm.Vm.Instruction.{
  Instruction, stop, suicide, sload, sstore, balance, mstore, mload, mstore8, return, sha3,
  calldatacopy, codecopy, call, create,
}
use eth_go.Ethvm.Vm.Cost.{present, reach, memory_need, get_storage, step_gas, cost}
use eth_go.Ethstate.Object.{set_storage}
use eth_go.Ethutil.Value.{copy_value}
use eth_go.Ethvm.Vm.Accounts.{sstore_step, sload_step, balance_step, suicide_step}
use eth_go.Ethvm.Vm.Run.{fetch}
use eth_go.Ethvm.Vm.NoCut.{
  NoCut, returns, panics, NoCut-bind, NoCut-uint_of, NoCut-big_int, NoCut-get_storage,
  NoCut-get_or_new, NoCut-get_balance, Bounded, plain,
}
use eth_go.Ethvm.Vm.NoCut.Steps.{words, NoCut-from_top, NoCut-peek, NoCut-peekn, NoCut-gets_at}

NoCut-present : {A : Type 0} (o : Option A) → NoCut (present o)
NoCut-present none = panics
NoCut-present (some a) = returns a

NoCut-reach : (st : Stack) (i j : ℕ) → NoCut (reach st i j)
unfolding reach
NoCut-reach st i j = search (plain, NoCut-from_top)

ruleset needs = (words, NoCut-peek, NoCut-reach)

NoCut-memory_need : (i : Instruction) (st : Stack) → NoCut (memory_need i st)
unfolding memory_need
NoCut-memory_need mstore st = search needs
NoCut-memory_need mload st = search needs
NoCut-memory_need mstore8 st = search needs
NoCut-memory_need return st = search needs
NoCut-memory_need sha3 st = search needs
NoCut-memory_need calldatacopy st = search needs
NoCut-memory_need codecopy st = search needs
NoCut-memory_need call st = search needs
NoCut-memory_need create st = search needs
NoCut-memory_need _ st = returns 0

pub NoCut-sstore_step :
    {T : Type 0} (object message : ℕ) (st : Stack) (w : World T)
    → NoCut (sstore_step object message st w)
unfolding sstore_step set_storage copy_value
NoCut-sstore_step object message st w = search words

pub NoCut-fetch : {T : Type 0} (f : Frame) (m : Machine T) → NoCut (fetch f m)
unfolding fetch
NoCut-fetch f m = search (plain, NoCut-gets_at, NoCut-uint_of)

module _ {T : Type 0} (ops : TrieOps T) (fits : Bounded ops) where
  NoCut-closure_storage :
      (object : ℕ) (key : ℤ) (w : World T) → NoCut (get_storage ops object key w)
  unfolding get_storage
  NoCut-closure_storage object key w =
      NoCut-bind _ _ (NoCut-get_storage ops (λ bs. bs) fits _ key) (λ found. returns _)

  NoCut-step_gas :
      (object : ℕ) (i : Instruction) (st : Stack) (w : World T) → NoCut (step_gas ops object i st w)
  unfolding step_gas
  NoCut-step_gas object sstore st w =
      search (plain, NoCut-peekn, NoCut-closure_storage, NoCut-big_int, NoCut-present) depth 8
  NoCut-step_gas object call st w = search (plain, NoCut-peek)
  NoCut-step_gas object stop st w = returns _
  NoCut-step_gas object suicide st w = returns _
  NoCut-step_gas object sload st w = returns _
  NoCut-step_gas object balance st w = returns _
  NoCut-step_gas object sha3 st w = returns _
  NoCut-step_gas object create st w = returns _
  NoCut-step_gas object _ st w = returns _

  pub NoCut-cost : (object : ℕ) (i : Instruction) (m : Machine T) → NoCut (cost ops object i m)
  unfolding cost
  NoCut-cost object i m = search (plain, NoCut-memory_need, NoCut-step_gas)

  pub NoCut-sload_step :
      (object : ℕ) (st : Stack) (w : World T) → NoCut (sload_step ops object st w)
  unfolding sload_step
  NoCut-sload_step object st w =
      search (words, NoCut-closure_storage, NoCut-big_int, NoCut-present) depth 9

  module _ (sha3 : List ℕ → List ℕ) where
    pub NoCut-balance_step : (st : Stack) (w : World T) → NoCut (balance_step ops sha3 st w)
    unfolding balance_step
    NoCut-balance_step st w = search (words, NoCut-get_balance) depth 8

    pub NoCut-suicide_step :
        (object : ℕ) (st : Stack) (w : World T) → NoCut (suicide_step ops sha3 object st w)
    unfolding suicide_step
    NoCut-suicide_step object st w = search (words, NoCut-get_or_new) depth 8
