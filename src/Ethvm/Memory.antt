-- ===== src/Ethvm/Memory.antt =====
-- `Memory` of ethvm/stack.go. Offsets and sizes are the int64 that are not negative; Vm/Offsets has
-- the others.
pub mod Laws
mod Runs
use eth_go.Common.{
  ℕ, zero, suc, ◌+◌, ◌-◌, ◌≤◌, ◌<◌, List, [], ◌∷◌, ◌++◌, Bool, ltb, leb, ◌^◌, if◌then◌else◌, length,
  take, drop, replicate, min, Result, ok, panic, ◌>>=◌, slice as slice_of,
}

pub record Memory : Type 0 where
  pub store : List ℕ

abbrev pub empty_memory : Memory
empty_memory = record { store = [] }

unfoldable pub len : Memory → ℕ
len m = length m.store

-- `copy(store[at:at+n], value)` over a store that reaches so far.
unfoldable pub copy_at : List ℕ → ℕ → ℕ → List ℕ → List ℕ
copy_at store at n value =
    let k = min n (length value) in take at store ++ (take k value ++ drop (at + k) store)

-- `lenSize` is `len(store) - 1`, so it is -1 for an empty store: the test `totSize > lenSize` is
-- `len(store) <= totSize`, and the new slice has `totSize - lenSize - 1` bytes. Where `offset + size`
-- wraps in int64 it is below 0: nothing is appended, and the slice panics.
unfoldable pub set : ℕ → ℕ → List ℕ → Memory → Result Memory
unfolding copy_at slice_of
set offset size value m =
    let tot_size = offset + size in
    let store =
      if leb (length m.store) tot_size
      then m.store ++ replicate (tot_size - length m.store) 0
      else m.store in
    let copied = do
      _ ← slice_of store offset tot_size
      ok (record { store = copy_at store offset size value })
    in if leb (2 ^ 63) tot_size then panic else copied

unfoldable pub resize : ℕ → Memory → Memory
resize size m =
    if ltb (length m.store) size
    then record { store = m.store ++ replicate (size - length m.store) 0 }
    else m

-- `math.Min` over float64 is exact, as a memory is shorter than 2 ^ 53 bytes. Where the sum wraps, the
-- end is below 0. Behind the end `Get` returns nil; across it, what is there.
unfoldable pub get : ℕ → ℕ → Memory → Result (List ℕ)
unfolding slice_of
get offset size m =
    let part = slice_of m.store offset (min (length m.store) (offset + size)) in
    if ltb offset (length m.store)
    then (if leb (2 ^ 63) (offset + size) then panic else part)
    else ok []
