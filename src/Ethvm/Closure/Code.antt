-- ===== src/Ethvm/Closure/Code.antt =====
-- The instructions that a closure reads.
use eth_go.Common.{
  ℕ, ◌+◌, ◌<◌, ◌≡◌, arith, List, [], ◌∷◌, ◌++◌, length, ok, panic, slice as slice_of, slice-append,
  length-append,
}
use eth_go.Common.Int.{pos}
use eth_go.Ethutil.Item.{num, int, bytes}
use eth_go.Ethvm.Closure.{get, gets}

-- A program of one byte reads as the number 0, whatever the byte and the position: it is never run.
pub get_one : (b x : ℕ) → get (b ∷ []) x ≡ ok (num int (pos 0))
unfolding get
get_one b x = ground arith

-- In a longer program each position within gives its byte.
pub get_lem :
    (front : List ℕ) (b : ℕ) (back : List ℕ)
    → 1 < length (front ++ (b ∷ back))
    → get (front ++ (b ∷ back)) (length front) ≡ ok (bytes (b ∷ []))
unfolding get
get_lem front b back h = ground (
  arith,
  length-append front (b ∷ back),
  slice-append front (b ∷ []) back (length front) (length front + 1),
)

-- A read that starts in the code and runs past its end panics, if it is shorter than the code.
pub gets_past :
    (code : List ℕ) (x y : ℕ)
    → x < length code
    → y < length code
    → length code < x + y
    → gets code x y ≡ panic
unfolding gets slice_of
gets_past code x y h k l = ground arith
