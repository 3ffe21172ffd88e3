-- ===== src/Ethvm/Vm/NoCut/Steps.antt =====
-- The instructions on the stack, the memory and the code return or panic.
use eth_go.Common.{ℕ, List}
use eth_go.Common.Int.{ℤ, pos, negsuc}
use eth_go.Ethvm.Words.{mod_ℤ}
use eth_go.Ethvm.Stack.{Stack, pop, popn, peek, peekn, require, from_top, dupn, swapn}
use eth_go.Ethvm.Memory.{Memory, set, get}
use eth_go.Ethvm.Closure.{gets}
use eth_go.Ethvm.Vm.Instruction.{
  Binary, add, mul, sub, div, sdiv, modulo, smod, exp, lt, gt, slt, sgt, eq, bit_and, bit_or,
  bit_xor,
}
use eth_go.Ethvm.Vm.Arithmetic.{
  binary_op, binary_step, neg_step, not_step, byte_at, byte_step, modular_step, remainder,
}
use eth_go.Ethvm.Vm.Offsets.{
  gets_at, mem_get, mem_set, slice_at, load_args, copy_step, sha3_step, mload_step, mstore_step,
  mstore8_step, push_step, store_byte,
}
use eth_go.Ethvm.Vm.Steps.{
  pop_step, dup_step, swap_step, calldataload_step, jump_step, jumpi_step, return_step,
}
use eth_go.Ethvm.Vm.NoCut.{
  NoCut, returns, panics, NoCut-bind, NoCut-if, NoCut-or_panic, NoCut-slice, NoCut-bytes_of, plain,
}

pub NoCut-from_top : (st : Stack) (k : ℕ) → NoCut (from_top st k)
NoCut-from_top st k = search plain

pub NoCut-require : (m : ℕ) (st : Stack) → NoCut (require m st)
unfolding require
NoCut-require m st = search plain

pub NoCut-peek : (st : Stack) → NoCut (peek st)
unfolding peek
NoCut-peek st = search (plain, NoCut-from_top)

pub NoCut-peekn : (st : Stack) → NoCut (peekn st)
unfolding peekn
NoCut-peekn st = search (plain, NoCut-from_top)

pub NoCut-pop : (st : Stack) → NoCut (pop st)
unfolding pop
NoCut-pop st = search (plain, NoCut-from_top, NoCut-slice)

pub NoCut-popn : (st : Stack) → NoCut (popn st)
unfolding popn
NoCut-popn st = search (plain, NoCut-from_top, NoCut-slice)

pub ruleset words = (plain, NoCut-require, NoCut-pop, NoCut-popn)

NoCut-remainder : (y x : ℤ) → NoCut (remainder y x)
unfolding remainder mod_ℤ
NoCut-remainder y x = search plain

NoCut-binary_op : (op : Binary) (y x : ℤ) → NoCut (binary_op op y x)
unfolding binary_op
NoCut-binary_op add y x = returns _
NoCut-binary_op sub y x = returns _
NoCut-binary_op mul y x = returns _
NoCut-binary_op div y x = returns _
NoCut-binary_op sdiv y x = returns _
NoCut-binary_op modulo y x = NoCut-remainder y x
NoCut-binary_op smod y x = NoCut-remainder y x
NoCut-binary_op exp y x = returns _
NoCut-binary_op lt y x = returns _
NoCut-binary_op gt y x = returns _
NoCut-binary_op slt y x = returns _
NoCut-binary_op sgt y x = returns _
NoCut-binary_op eq y x = returns _
NoCut-binary_op bit_and y x = returns _
NoCut-binary_op bit_or y x = returns _
NoCut-binary_op bit_xor y x = returns _

pub NoCut-binary_step : (op : Binary) (st : Stack) → NoCut (binary_step op st)
unfolding binary_step
NoCut-binary_step op st = search (words, NoCut-binary_op)

pub NoCut-neg_step : (st : Stack) → NoCut (neg_step st)
unfolding neg_step
NoCut-neg_step st = search words

pub NoCut-not_step : (st : Stack) → NoCut (not_step st)
unfolding not_step
NoCut-not_step st = search words

NoCut-byte_at : (val th : ℤ) → NoCut (byte_at val th)
unfolding byte_at
NoCut-byte_at val (pos th) = search plain
NoCut-byte_at val (negsuc th) = panics

pub NoCut-byte_step : (st : Stack) → NoCut (byte_step st)
unfolding byte_step
NoCut-byte_step st = search (words, NoCut-byte_at)

pub NoCut-modular_step : (op : ℤ → ℤ → ℤ) (st : Stack) → NoCut (modular_step op st)
unfolding modular_step
NoCut-modular_step op st = search (words, NoCut-remainder) depth 8

pub NoCut-mem_get : (o s : ℤ) (m : Memory) → NoCut (mem_get o s m)
unfolding mem_get get
NoCut-mem_get (pos o) (pos s) m = search (plain, NoCut-slice)
NoCut-mem_get (pos o) (negsuc s) m = search plain
NoCut-mem_get (negsuc o) s m = panics

pub NoCut-mem_set : (o s : ℤ) (v : List ℕ) (m : Memory) → NoCut (mem_set o s v m)
unfolding mem_set set
NoCut-mem_set (pos o) (pos s) v m = search (plain, NoCut-slice)
NoCut-mem_set (pos o) (negsuc s) v m = panics
NoCut-mem_set (negsuc o) s v m = panics

NoCut-slice_at : (xs : List ℕ) (from to : ℤ) → NoCut (slice_at xs from to)
unfolding slice_at
NoCut-slice_at xs (pos from) (pos to) = NoCut-slice xs from to
NoCut-slice_at xs (pos from) (negsuc to) = panics
NoCut-slice_at xs (negsuc from) to = panics

NoCut-load_args : (args : List ℕ) (offset : ℤ) → NoCut (load_args args offset)
unfolding load_args
NoCut-load_args args offset = search (plain, NoCut-slice_at)

NoCut-store_byte : (i : ℤ) (b : ℕ) (m : Memory) → NoCut (store_byte i b m)
unfolding store_byte
NoCut-store_byte (pos i) b m = search plain
NoCut-store_byte (negsuc i) b m = panics

pub NoCut-gets_at : (code : List ℕ) (x : ℤ) (y : ℕ) → NoCut (gets_at code x y)
unfolding gets_at gets
NoCut-gets_at code (pos x) y = search (plain, NoCut-slice)
NoCut-gets_at code (negsuc x) y = search plain

ruleset memory = (words, NoCut-mem_get, NoCut-mem_set, NoCut-slice_at, NoCut-store_byte)

pub NoCut-copy_step : (xs : List ℕ) (st : Stack) (m : Memory) → NoCut (copy_step xs st m)
unfolding copy_step
NoCut-copy_step xs st m = search memory depth 9

pub NoCut-sha3_step :
    (sha3 : List ℕ → List ℕ) (st : Stack) (m : Memory) → NoCut (sha3_step sha3 st m)
unfolding sha3_step
NoCut-sha3_step sha3 st m = search memory

pub NoCut-mload_step : (st : Stack) (m : Memory) → NoCut (mload_step st m)
unfolding mload_step
NoCut-mload_step st m = search memory

pub NoCut-mstore_step : (st : Stack) (m : Memory) → NoCut (mstore_step st m)
unfolding mstore_step
NoCut-mstore_step st m = search memory

pub NoCut-mstore8_step : (st : Stack) (m : Memory) → NoCut (mstore8_step st m)
unfolding mstore8_step
NoCut-mstore8_step st m = search memory

pub NoCut-push_step : (code : List ℕ) (n : ℕ) (pc : ℤ) (st : Stack) → NoCut (push_step code n pc st)
unfolding push_step
NoCut-push_step code n pc st = search (plain, NoCut-gets_at, NoCut-bytes_of)

pub NoCut-pop_step : (st : Stack) → NoCut (pop_step st)
unfolding pop_step
NoCut-pop_step st = search words

pub NoCut-dup_step : (n : ℕ) (st : Stack) → NoCut (dup_step n st)
unfolding dup_step dupn
NoCut-dup_step n st = search (plain, NoCut-peek)

pub NoCut-swap_step : (n : ℕ) (st : Stack) → NoCut (swap_step n st)
unfolding swap_step swapn
NoCut-swap_step n st = search plain depth 8

pub NoCut-calldataload_step : (args : List ℕ) (st : Stack) → NoCut (calldataload_step args st)
unfolding calldataload_step
NoCut-calldataload_step args st = search (words, NoCut-load_args)

pub NoCut-jump_step : (st : Stack) → NoCut (jump_step st)
unfolding jump_step
NoCut-jump_step st = search words

pub NoCut-jumpi_step : (at : ℤ) (st : Stack) → NoCut (jumpi_step at st)
unfolding jumpi_step
NoCut-jumpi_step at st = search words

pub NoCut-return_step : (st : Stack) (m : Memory) → NoCut (return_step st m)
unfolding return_step
NoCut-return_step st m = search memory
