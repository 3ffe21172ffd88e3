-- ===== src/Ethvm/Closure.antt =====
-- ethvm/closure.go: the code that a closure runs, and its gas. The `*big.Int` fields are pointers
-- into a heap, since `UseGas` and `ReturnGas` change the numbers in place and the callers share them.
pub mod Gas
pub mod Code
mod Runs
use eth_go.Common.{
  ℕ, ◌+◌, ◌-◌, ◌≤◌, ◌<◌, List, Bool, true, false, leb, ◌==◌, ◌||◌, if◌then◌else◌, length, Result,
  ok, ◌>>=◌, slice as slice_of,
}
use eth_go.Common.Int.{ℤ, pos, ltb_ℤ, ◌+ℤ◌, ◌-ℤ◌}
use eth_go.Ethutil.Item.{Item, num, int, bytes}

-- The number behind each pointer.
abbrev pub Heap : Type 0
Heap = ℕ → ℤ

abbrev pub write : Heap → ℕ → ℤ → Heap
write h p z q = if p == q then z else h q

-- A caller is an account, whose `ReturnGas` does nothing, or another closure, given by the pointers
-- of its `Gas` and `UsedGas`.
pub data Caller : Type 0 where
  account : Caller
  closure_ref : ℕ → ℕ → Caller

pub record Closure : Type 0 where
  pub caller : Caller
  pub code : List ℕ
  pub gas : ℕ
  pub used_gas : ℕ
  pub price : ℕ
  pub args : List ℕ

-- `new(big.Int).Set(price)` and `new(big.Int)` are at `fresh` and `fresh + 1`; `Gas` is the pointer
-- that is passed.
unfoldable pub new_closure : Caller → List ℕ → ℕ → ℕ → List ℕ → ℕ → Heap → Closure × Heap
new_closure caller code gas price args fresh h = (
  record {
    caller = caller;
    code = code;
    gas = gas;
    used_gas = fresh + 1;
    price = fresh;
    args = args;
  },
  write (write h fresh (h price)) (fresh + 1) (pos 0),
)

-- `x` is `c.Code[x:x+y]`, or the number 0 behind the code.
unfoldable pub gets : List ℕ → ℕ → ℕ → Result Item
gets code x y =
    if leb (length code) x || leb (length code) y
    then ok (num int (pos 0))
    else do partial ← slice_of code x (x + y); ok (bytes partial)

-- The instruction at `x`.
unfoldable pub get : List ℕ → ℕ → Result Item
unfolding gets
get code x = gets code x 1

-- `gas` is the pointer of the amount. The second statement reads it after the first has written.
unfoldable pub use_gas : Closure → ℕ → Heap → Bool × Heap
use_gas c gas h =
    if ltb_ℤ (h c.gas) (h gas)
    then (false, h)
    else (let h1 = write h c.gas (h c.gas -ℤ h gas) in
        (true, write h1 c.used_gas (h1 c.used_gas +ℤ h1 gas)))

unfoldable pub return_gas : Caller → ℕ → Heap → Heap
return_gas account gas h = h
return_gas (closure_ref g used) gas h =
    let h1 = write h g (h g +ℤ h gas) in write h1 used (h1 used -ℤ h1 gas)

-- `Return` gives what gas is left to the caller; the bytes go through unchanged.
unfoldable pub return_closure : Closure → List ℕ → Heap → List ℕ × Heap
unfolding return_gas
return_closure c ret h = (ret, return_gas c.caller c.gas h)
