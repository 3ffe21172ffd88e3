-- ===== src/Ethvm/Vm/Cost.antt =====
-- ethvm/vm.go: the first `switch` of the loop, which finds the gas of an instruction and the memory
-- that it reaches, and the charge behind it. `GasStep` is 1, and so on from ethvm/common.go.
use eth_go.Common.{
  ℕ, ◌+◌, ◌-◌, ◌*◌, ◌/◌, ◌%◌, ◌^◌, ltb, ◌==◌, ◌&&◌, if◌then◌else◌, length, max, Option, none, some,
  Result, ok, panic, ◌>>=◌,
}
use eth_go.Common.Int.{ℤ, pos, nat_abs, ltb_ℤ, ◌+ℤ◌, ◌-ℤ◌}
use eth_go.Ethutil.Item.{Item}
use eth_go.Ethutil.Value.{big_int}
use eth_go.Ethstate.Trie.{TrieOps}
use eth_go.Ethstate.Object.{get_storage as object_storage}
use eth_go.Ethstate.Accounts.{State, write_object}
use eth_go.Ethvm.Words.{uint64_of, float64_of, float64_to_uint64}
use eth_go.Ethvm.Stack.{Stack, require, peek, peekn, from_top}
use eth_go.Ethvm.Memory.{Memory, resize}
use eth_go.Ethvm.Vm.{Machine, World}
use eth_go.Ethvm.Vm.Instruction.{
  Instruction, stop, suicide, sload, sstore, balance, mstore, mload, mstore8, return, sha3,
  calldatacopy, codecopy, call, create,
}

-- A nil `*big.Int` panics in its first use.
abbrev pub present : {A : Type 0} → Option A → Result A
present none = panic
present (some a) = ok a

abbrev pub set_object_state : {T : Type 0} → World T → State T → World T
set_object_state w s = record w { state = s }

-- The sum of two sizes in uint64.
unfoldable pub add_uint64 : ℕ → ℕ → ℕ
add_uint64 a b = (a + b) % 2 ^ 64

-- The sum of the words at two places from the top.
unfoldable pub reach : Stack → ℕ → ℕ → Result ℕ
unfolding uint64_of add_uint64
reach st i j = do a ← from_top st i; b ← from_top st j; ok (add_uint64 (uint64_of a) (uint64_of b))

-- `newMemSize`, before it is rounded to words. CALL takes the maximum of two float64.
unfoldable pub memory_need : Instruction → Stack → Result ℕ
unfolding require peek uint64_of add_uint64 reach
memory_need mstore st = do _ ← require 2 st; a ← peek st; ok (add_uint64 (uint64_of a) 32)
memory_need mload st = do _ ← require 1 st; a ← peek st; ok (add_uint64 (uint64_of a) 32)
memory_need mstore8 st = do _ ← require 2 st; a ← peek st; ok (add_uint64 (uint64_of a) 1)
memory_need return st = do _ ← require 2 st; reach st 1 2
memory_need sha3 st = do _ ← require 2 st; reach st 1 2
memory_need calldatacopy st = do _ ← require 3 st; reach st 1 3
memory_need codecopy st = do _ ← require 3 st; reach st 1 3
memory_need call st = do
  _ ← require 7 st
  x ← reach st 6 7
  y ← reach st 4 5
  ok (float64_to_uint64 (max (float64_of x) (float64_of y)))
memory_need create st = do _ ← require 3 st; reach st 2 3
memory_need _ st = ok 0

-- `(newMemSize + 31) / 32 * 32`
unfoldable pub whole_words : ℕ → ℕ
unfolding add_uint64
whole_words n = add_uint64 n 31 / 32 * 32

-- `GasMemory` is 1: a unit of gas for each word that the memory grows by.
unfoldable pub memory_gas : ℕ → Memory → ℕ
memory_gas size mem = if ltb (length mem.store) size then (size - length mem.store) / 32 else 0

-- The factor of `GasSStore`: 2 for a slot that is filled, 0 for one that is cleared.
unfoldable pub store_mult : ℤ → ℤ → ℕ
store_mult old new =
    if (nat_abs old == 0) && ltb 0 (nat_abs new)
    then 2
    else if ltb 0 (nat_abs old) && (nat_abs new == 0)
    then 0
    else 1

-- `addStepGasUsage` leaves out an amount below 0.
abbrev pub call_gas : ℤ → ℤ
call_gas top = if ltb_ℤ top (pos 0) then pos 20 else pos 20 +ℤ top

module _ {T : Type 0} (ops : TrieOps T) where
  -- `closure.GetStorage`, which may cache the value.
  unfoldable pub get_storage : ℕ → ℤ → World T → Result (Item × World T)
  unfolding object_storage
  get_storage object key w = do
    (v, o) ← object_storage ops (w.state.heap object) key
    ok (v, set_object_state w (write_object w.state object o))

  -- The gas of an instruction without its memory.
  unfoldable pub step_gas : ℕ → Instruction → Stack → World T → Result (ℤ × World T)
  unfolding get_storage store_mult peekn peek big_int
  step_gas object stop st w = ok (pos 0, w)
  step_gas object suicide st w = ok (pos 0, w)
  step_gas object sload st w = ok (pos 20, w)
  step_gas object sstore st w = do
    (y, x) ← peekn st
    (v, w') ← get_storage object x w
    z ← big_int v
    old ← present z
    ok (pos (store_mult old y * 100), w')
  step_gas object balance st w = ok (pos 20, w)
  step_gas object sha3 st w = ok (pos 20, w)
  step_gas object call st w = do top ← peek st; ok (call_gas top, w)
  step_gas object create st w = ok (pos 100, w)
  step_gas object _ st w = ok (pos 1, w)

  -- All gas of a round, the size that the memory gets, and the world after the look at the storage.
  unfoldable pub cost : ℕ → Instruction → Machine T → Result (ℤ × ℕ × World T)
  unfolding step_gas memory_need whole_words memory_gas
  cost object i m = do
    n ← memory_need i m.stack
    (gas, w) ← step_gas object i m.stack m.world
    let size = whole_words n
    ok (gas +ℤ pos (memory_gas size m.mem), size, w)

-- `UseGas` with the closure's own gas, where the amount is too large.
unfoldable pub out_of_gas : {T : Type 0} → Machine T → Machine T
out_of_gas m = record m { gas = pos 0 }

-- `UseGas`, where the closure has the gas, and `Resize`.
unfoldable pub charge : {T : Type 0} → Machine T → ℤ → ℕ → World T → Machine T
unfolding resize
charge m gas size w = record m {
  gas = m.gas -ℤ gas;
  used_gas = m.used_gas +ℤ gas;
  mem = resize size m.mem;
  world = w;
}
