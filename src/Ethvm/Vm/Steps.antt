-- ===== src/Ethvm/Vm/Steps.antt =====
-- ethvm/vm.go: the instructions on the stack, the jumps, and what is pushed from the closure and the
-- environment.
use eth_go.Common.{ℕ, List, if◌then◌else◌, length, Result, ok, ◌>>=◌}
use eth_go.Common.Int.{ℤ, pos, ltb_ℤ, ◌+ℤ◌}
use eth_go.Ethutil.Bytes.{from_bytes}
use eth_go.Ethvm.Words.{int64_of}
use eth_go.Ethvm.Stack.{Stack, require, pop, popn, push as push_word, dupn, swapn}
use eth_go.Ethvm.Memory.{Memory}
use eth_go.Ethvm.Vm.{Env, Frame, Machine}
use eth_go.Ethvm.Vm.Instruction.{
  Info, address, origin, caller, callvalue, calldatasize, codesize, gasprice, prevhash, coinbase,
  timestamp, number, difficulty, gaslimit, pc, msize, gas as gas_left,
}
use eth_go.Ethvm.Vm.Offsets.{mem_get, load_args}

unfoldable pub pop_step : Stack → Result Stack
unfolding require pop
pop_step st = do _ ← require 1 st; (x, rest) ← pop st; ok rest

unfoldable pub dup_step : ℕ → Stack → Result Stack
unfolding dupn
dup_step n st = do (d, st') ← dupn n st; ok st'

unfoldable pub swap_step : ℕ → Stack → Result Stack
unfolding swapn
swap_step n st = do (x, y, st') ← swapn n st; ok st'

unfoldable pub calldataload_step : List ℕ → Stack → Result Stack
unfolding require pop load_args push_word from_bytes
calldataload_step args st = do
  _ ← require 1 st
  (offset, rest) ← pop st
  bs ← load_args args offset
  ok (push_word (pos (from_bytes bs)) rest)

-- The position that the next round reads, and the stack.
unfoldable pub jump_step : Stack → Result (ℤ × Stack)
unfolding require pop
jump_step st = do _ ← require 1 st; pop st

unfoldable pub jumpi_step : ℤ → Stack → Result (ℤ × Stack)
unfolding require popn
jumpi_step at st = do
  _ ← require 2 st
  (cond, dest, rest) ← popn st
  ok (if ltb_ℤ cond (pos 1) then at +ℤ pos 1 else dest, rest)

-- The bytes that `RETURN` returns.
unfoldable pub return_step : Stack → Memory → Result (List ℕ)
unfolding require popn mem_get int64_of
return_step st mem = do
  _ ← require 2 st
  (size, offset, rest) ← popn st
  mem_get (int64_of offset) (int64_of size) mem

abbrev from_hash : List ℕ → ℤ
from_hash bs = pos (from_bytes bs)

module _ {T : Type 0} where
  -- What an instruction pushes that takes nothing from the stack.
  unfoldable pub info_word : Env → Frame → Machine T → Info → ℤ
  unfolding from_bytes
  info_word env f m address = from_hash (m.world.state.heap f.object).addr
  info_word env f m origin = from_hash env.origin
  info_word env f m caller = from_hash f.caller
  info_word env f m callvalue = env.value
  info_word env f m calldatasize = pos (length f.args)
  info_word env f m codesize = pos (length f.code)
  info_word env f m gasprice = f.price
  info_word env f m prevhash = from_hash env.prev_hash
  info_word env f m coinbase = from_hash env.coinbase
  info_word env f m timestamp = env.time
  info_word env f m number = env.block_number
  info_word env f m difficulty = env.difficulty
  info_word env f m gaslimit = pos 0
  info_word env f m pc = m.pc
  info_word env f m msize = pos (length m.mem.store)
  info_word env f m gas_left = m.gas
