-- ===== src/Ethvm/Closure/Gas.antt =====
-- Gas is neither made nor lost, as long as the pointers are apart.
use eth_go.Common.{ℕ, ◌≡◌, ◌≢◌, arith, List, true, false, if◌then◌else◌}
use eth_go.Common.Int.{pos, ltb_ℤ, ◌+ℤ◌, ◌-ℤ◌, move_right, move_left, -ℤ_self, +ℤ_zero}
use eth_go.Ethvm.Closure.{Heap, closure_ref, Closure, use_gas, return_closure}

-- With an amount at a pointer of its own: a closure that has the gas uses just the amount, and one
-- that has not keeps everything. Other numbers are not touched.
pub use_gas_lem :
    (c : Closure) (gas : ℕ) (h : Heap)
    → c.gas ≢ c.used_gas
    → c.gas ≢ gas
    → c.used_gas ≢ gas
    → let (done, h') = use_gas c gas h in
      (done ≡ (if ltb_ℤ (h c.gas) (h gas) then false else true))
      × (h' c.gas ≡ (if done then h c.gas -ℤ h gas else h c.gas))
      × (h' c.used_gas ≡ (if done then h c.used_gas +ℤ h gas else h c.used_gas))
      × ((p : ℕ) → c.gas ≢ p → c.used_gas ≢ p → h' p ≡ h p)
unfolding use_gas
use_gas_lem c gas h a b d = (ground arith, ground arith, ground arith, λ p x y. ground arith)

-- The gas of a closure and what it has used add up to the same number before and after.
pub use_gas_conserves :
    (c : Closure) (gas : ℕ) (h : Heap)
    → c.gas ≢ c.used_gas
    → c.gas ≢ gas
    → c.used_gas ≢ gas
    → let h' = (use_gas c gas h).1 in h' c.gas +ℤ h' c.used_gas ≡ h c.gas +ℤ h c.used_gas
use_gas_conserves c gas h a b d =
    ground (arith, use_gas_lem c gas h a b d, move_right (h c.gas) (h c.used_gas) (h gas))

-- With the closure's own pointer as the amount, as on running out of gas, all gas goes and nothing
-- is counted as used.
pub use_gas_own :
    (c : Closure) (h : Heap)
    → c.gas ≢ c.used_gas
    → let (done, h') = use_gas c c.gas h in
      (done ≡ true) × (h' c.gas ≡ pos 0) × (h' c.used_gas ≡ h c.used_gas)
unfolding use_gas
use_gas_own c h a = (
  ground arith,
  ground (arith, -ℤ_self (h c.gas)),
  ground (arith, -ℤ_self (h c.gas), +ℤ_zero (h c.used_gas)),
)

-- Gas that is returned to a calling closure is taken off what that one has used.
pub return_closure_conserves :
    (c : Closure) (ret : List ℕ) (g used : ℕ) (h : Heap)
    → c.caller ≡ closure_ref g used
    → g ≢ used
    → g ≢ c.gas
    → used ≢ c.gas
    → let h' = (return_closure c ret h).1 in
      (h' g ≡ h g +ℤ h c.gas) × (h' g +ℤ h' used ≡ h g +ℤ h used)
unfolding return_closure
return_closure_conserves c ret g used h e a b d =
    rw e (ground arith, ground (arith, move_left (h g) (h used) (h c.gas)))
