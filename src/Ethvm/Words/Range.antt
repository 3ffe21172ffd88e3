-- ===== src/Ethvm/Words/Range.antt =====
-- Words below 2 ^ 256, and that `ensure256` makes them.
use eth_go.Common.{ℕ, ◌-◌, ◌%◌, ◌<◌, ◌≡◌, arith}
use eth_go.Common.Int.{ℤ, pos, negsuc}
use eth_go.Ethvm.Words.{ensure256, and_ℤ, pow256}
use eth_go.Ethvm.Words.Bits.{bit_and_mask}

abbrev pub IsWord : ℤ → Type 0
IsWord z = (n : ℕ) × (z ≡ pos n) × (n < pow256)

pub ensure256-pos : (n : ℕ) → ensure256 (pos n) ≡ pos (n % pow256)
unfolding ensure256 and_ℤ
ensure256-pos n = ground (arith, bit_and_mask 256 n)

-- A number below 0 gets the digits of its two's complement.
pub ensure256-negsuc : (n : ℕ) → ensure256 (negsuc n) ≡ pos (pow256 - 1 - n % pow256)
unfolding ensure256 and_ℤ
ensure256-negsuc n = ground (arith, bit_and_mask 256 n)

pub ensure256-IsWord : (z : ℤ) → IsWord (ensure256 z)
ensure256-IsWord (pos n) = (n % pow256, ensure256-pos n, omega arith)
ensure256-IsWord (negsuc n) = (pow256 - 1 - n % pow256, ensure256-negsuc n, omega arith)
