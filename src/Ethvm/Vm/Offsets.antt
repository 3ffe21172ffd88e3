-- ===== src/Ethvm/Vm/Offsets.antt =====
-- How ethvm/vm.go reads its code, its memory and its arguments at words: by `Int64()`, that a slice
-- bound below 0 makes panic. `math.Min` over float64 with a length is exact, as a length is below 2 ^ 53.
use eth_go.Common.{
  ℕ, ◌-◌, ◌%◌, List, [], ◌++◌, ltb, leb, if◌then◌else◌, length, Result, ok, panic, ◌>>=◌, replicate,
  take, slice as slice_of, set as set_at,
}
use eth_go.Common.Int.{ℤ, pos, negsuc, nat_abs, ltb_ℤ, ◌+ℤ◌}
use eth_go.Ethutil.Item.{Item, num, int}
use eth_go.Ethutil.Value.{bytes_of}
use eth_go.Ethutil.Bytes.{from_bytes, big_to_bytes}
use eth_go.Ethvm.Words.{int64_of, add_int64}
use eth_go.Ethvm.Stack.{Stack, require, pop, popn, push as push_word}
use eth_go.Ethvm.Memory.{Memory, set, get}
use eth_go.Ethvm.Closure.{gets}

-- `Gets` of ethvm/closure.go at an int64. Below 0 only the second test can hold.
unfoldable pub gets_at : List ℕ → ℤ → ℕ → Result Item
unfolding gets
gets_at code (pos x) y = gets code x y
gets_at code (negsuc x) y = if leb (length code) y then ok (num int (pos 0)) else panic

-- `Memory.Get` at int64. With one negative argument the sum cannot wrap.
unfoldable pub mem_get : ℤ → ℤ → Memory → Result (List ℕ)
unfolding get
mem_get (pos o) (pos s) m = get o s m
mem_get (pos o) (negsuc s) m = if ltb o (length m.store) then panic else ok []
mem_get (negsuc o) s m = panic

-- `Memory.Set` at int64.
unfoldable pub mem_set : ℤ → ℤ → List ℕ → Memory → Result Memory
unfolding set
mem_set (pos o) (pos s) v m = set o s v m
mem_set (pos o) (negsuc s) v m = panic
mem_set (negsuc o) s v m = panic

-- `xs[from:to]` at int64.
unfoldable pub slice_at : List ℕ → ℤ → ℤ → Result (List ℕ)
unfolding slice_of
slice_at xs (pos from) (pos to) = slice_of xs from to
slice_at xs (pos from) (negsuc to) = panic
slice_at xs (negsuc from) to = panic

-- `CALLDATALOAD`: 32 bytes of the arguments, with zeros behind their end.
unfoldable pub load_args : List ℕ → ℤ → Result (List ℕ)
unfolding slice_at int64_of
load_args args offset =
    let end = offset +ℤ pos 32 in
    let last : ℤ = if ltb_ℤ end (pos (length args)) then end else pos (length args) in
    if ltb_ℤ (pos (length args)) offset then ok (replicate 32 0) else (do
      part ← slice_at args (int64_of offset) (int64_of last)
      ok (take 32 (part ++ replicate 32 0)))

-- `CALLDATACOPY` and `CODECOPY`: a copy that starts or ends behind the end of `xs` copies nothing.
unfoldable pub copy_bounds : List ℕ → ℤ → ℤ → ℤ × ℤ
unfolding add_int64
copy_bounds xs c_off l =
    let size = pos (length xs) in
    if ltb_ℤ size c_off
    then (pos 0, pos 0)
    else if ltb_ℤ size (add_int64 c_off l)
    then (c_off, pos 0)
    else (c_off, l)

unfoldable pub copy_step : List ℕ → Stack → Memory → Result (Stack × Memory)
unfolding copy_bounds slice_at int64_of add_int64 mem_set pop
copy_step xs st mem = do
  (m_off, st1) ← pop st
  (c_off, st2) ← pop st1
  (l, rest) ← pop st2
  let (from, n) = copy_bounds xs (int64_of c_off) (int64_of l)
  code ← slice_at xs from (add_int64 from n)
  mem' ← mem_set (int64_of m_off) n code mem
  ok (rest, mem')

-- `SHA3`
unfoldable pub sha3_step : (List ℕ → List ℕ) → Stack → Memory → Result (Stack × Memory)
unfolding require popn push_word mem_get int64_of from_bytes
sha3_step sha3 st mem = do
  _ ← require 2 st
  (size, offset, rest) ← popn st
  data' ← mem_get (int64_of offset) (int64_of size) mem
  ok (push_word (pos (from_bytes (sha3 data'))) rest, mem)

unfoldable pub mload_step : Stack → Memory → Result (Stack × Memory)
unfolding require pop push_word mem_get int64_of from_bytes
mload_step st mem = do
  _ ← require 1 st
  (offset, rest) ← pop st
  val ← mem_get (int64_of offset) (pos 32) mem
  ok (push_word (pos (from_bytes val)) rest, mem)

unfoldable pub mstore_step : Stack → Memory → Result (Stack × Memory)
unfolding require popn mem_set int64_of big_to_bytes
mstore_step st mem = do
  _ ← require 2 st
  (val, start, rest) ← popn st
  mem' ← mem_set (int64_of start) (pos 32) (big_to_bytes (nat_abs val) 256) mem
  ok (rest, mem')

-- `byte(val.Int64() & 0xff)`
abbrev pub low_byte : ℤ → ℕ
low_byte (pos n) = n % 256
low_byte (negsuc n) = 255 - n % 256

-- `mem.store[at] = b`
unfoldable pub store_byte : ℤ → ℕ → Memory → Result Memory
store_byte (pos i) b m =
    if ltb i (length m.store) then ok (record { store = set_at m.store i b }) else panic
store_byte (negsuc i) b m = panic

unfoldable pub mstore8_step : Stack → Memory → Result (Stack × Memory)
unfolding require popn store_byte int64_of
mstore8_step st mem = do
  _ ← require 2 st
  (val, start, rest) ← popn st
  mem' ← store_byte (int64_of start) (low_byte val) mem
  ok (rest, mem')

-- `PUSH1` to `PUSH32`: `n` bytes behind the op code, and `pc` at the last of them.
unfoldable pub push_step : List ℕ → ℕ → ℤ → Stack → Result (ℤ × Stack)
unfolding gets_at int64_of push_word from_bytes
push_step code n pc st = do
  item ← gets_at code (int64_of (pc +ℤ pos 1)) n
  bs ← bytes_of item
  ok (pc +ℤ pos 1 +ℤ pos (n - 1), push_word (pos (from_bytes bs)) st)
