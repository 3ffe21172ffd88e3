-- ===== src/Ethchain/Block/GasLimit.antt =====
-- The gas limit of a block, from its parent's.
use eth_go.Common.{ℕ, suc, ◌+◌, ◌*◌, ◌/◌, ◌≤◌, ◌≡◌, arith, ltb, ok, some, if◌then◌else◌}
use eth_go.Common.Int.{pos, ◌+ℤ◌, ◌*ℤ◌}
use eth_go.Ethchain.Block.{Header, calc_gas_limit, div_by}

abbrev limit_after : ℕ → ℕ → ℕ
limit_after g u = let l : ℕ = (1023 * g + 6 * u / 5) / 1024 in if ltb l 125000 then 125000 else l

quotient :
    (g u : ℕ)
    → div_by ((pos 1023 *ℤ pos g) +ℤ div_by (pos 6 *ℤ pos u) 5) 1024
      ≡ pos ((1023 * g + 6 * u / 5) / 1024)
unfolding ◌+ℤ◌ ◌*ℤ◌
quotient g u = ground arith

calc_gas_limit_pos :
    (block parent : Header) (n g u : ℕ)
    → block.number ≡ some (pos (suc n))
    → parent.gas_limit ≡ pos g
    → parent.gas_used ≡ pos u
    → calc_gas_limit block parent ≡ ok (pos (limit_after g u))
unfolding calc_gas_limit
calc_gas_limit_pos block parent n g u hn hg hu = rw (hn, hg, hu, quotient g u) (ground arith)

bounds :
    (g u : ℕ)
    → u ≤ g
    → 125000 ≤ g
    → (125000 ≤ limit_after g u)
      × (1023 * g ≤ 1024 * limit_after g u + 1023)
      × (5120 * limit_after g u ≤ 5121 * g)
bounds g u h k = ground arith

-- Where the parent has a gas limit of at least 125000 and used no more gas than its limit,
-- CalcGasLimit of a block with a number above 0 gives a limit that is at least 125000, falls by no
-- more than one part in 1024, rounded, and grows by no more than one part in 5120.
pub calc_gas_limit_bounds :
    (block parent : Header) (n g u : ℕ)
    → block.number ≡ some (pos (suc n))
    → parent.gas_limit ≡ pos g
    → parent.gas_used ≡ pos u
    → u ≤ g
    → 125000 ≤ g
    → (l : ℕ) × (calc_gas_limit block parent ≡ ok (pos l))
      × (125000 ≤ l)
      × (1023 * g ≤ 1024 * l + 1023)
      × (5120 * l ≤ 5121 * g)
calc_gas_limit_bounds block parent n g u hn hg hu h k =
    let (low, near, high) = bounds g u h k in
    (limit_after g u, calc_gas_limit_pos block parent n g u hn hg hu, low, near, high)
