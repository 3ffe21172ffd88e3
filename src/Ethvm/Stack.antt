-- ===== src/Ethvm/Stack.antt =====
-- `Stack` of ethvm/stack.go. The list is `st.data`: the top of the stack is its last element. The
-- words are `*big.Int`, of which `Push` makes a copy.
pub mod Laws
mod Runs
use eth_go.Common.{
  ℕ, zero, suc, ◌+◌, ◌-◌, ◌≤◌, ◌<◌, List, [], ◌∷◌, ◌++◌, Bool, leb, if◌then◌else◌, length,
  get_elem?, set, take, drop, Result, ok, panic, ◌>>=◌, index, Option, some, none,
  slice as slice_of,
}
use eth_go.Common.Int.{ℤ}

pub record Stack : Type 0 where
  pub words : List ℤ

abbrev pub new_stack : Stack
new_stack = record { words = [] }

unfoldable pub len : Stack → ℕ
len st = length st.words

-- An index below 0 panics, as one behind the end does.
abbrev pub from_top : Stack → ℕ → Result ℤ
from_top st k = if leb k (length st.words) then index st.words (length st.words - k) else panic

-- `copy` of a slice onto itself changes nothing.
unfoldable pub pop : Stack → Result (ℤ × Stack)
pop st = do
  str ← from_top st 1
  rest ← slice_of st.words 0 (length st.words - 1)
  ok (str, record { words = rest })

-- The second word from the top, and the top.
unfoldable pub popn : Stack → Result (ℤ × ℤ × Stack)
popn st = do
  a ← from_top st 2
  b ← from_top st 1
  rest ← slice_of st.words 0 (length st.words - 2)
  ok (a, b, record { words = rest })

unfoldable pub peek : Stack → Result ℤ
peek st = from_top st 1

unfoldable pub peekn : Stack → Result (ℤ × ℤ)
peekn st = do a ← from_top st 2; b ← from_top st 1; ok (a, b)

-- The index counts from the bottom: `st.data[n]` and `st.data[0]` change places.
unfoldable pub swapn : ℕ → Stack → Result (ℤ × ℤ × Stack)
swapn n st = do
  a ← index st.words n
  b ← index st.words 0
  let swapped = set (set st.words n b) 0 a
  x ← index swapped n
  y ← index swapped 0
  ok (x, y, record { words = swapped })

unfoldable pub push : ℤ → Stack → Stack
push d st = record { words = st.words ++ (d ∷ []) }

-- The copied word is `st.data[n]`, from the bottom too.
unfoldable pub dupn : ℕ → Stack → Result (ℤ × Stack)
unfolding push peek
dupn n st = do d ← index st.words n; let st' = push d st; top ← peek st'; ok (top, st')

-- The last `amount` words; none (a nil slice) if there are fewer.
unfoldable pub get : ℕ → Stack → Result (List ℤ)
get amount st =
    if leb amount (length st.words)
    then slice_of st.words (length st.words - amount) (length st.words)
    else ok []

-- `require` of ethvm/vm.go: an instruction that finds fewer than `m` words panics.
unfoldable pub require : ℕ → Stack → Result (Unit {0})
require m st = if leb m (length st.words) then ok tt else panic
