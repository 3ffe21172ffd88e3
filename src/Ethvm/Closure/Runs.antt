-- ===== src/Ethvm/Closure/Runs.antt =====
-- The theorems on closures at concrete inputs.
use eth_go.Common.{◌+◌, ◌≡◌, refl, arith, [], ◌∷◌, if◌then◌else◌}
use eth_go.Common.Int.{pos, ltb_ℤ, ◌+ℤ◌}
use eth_go.Ethvm.Closure.{Heap, Closure, closure_ref, use_gas, return_closure}
use eth_go.Ethvm.Closure.Gas.{use_gas_conserves, return_closure_conserves}

-- Gas at 0, used gas at 1; the caller's gas at 2, its used gas at 3; an amount at 4.
abbrev callee : Closure
callee = record {
  caller = closure_ref 2 3;
  code = 1 ∷ 2 ∷ [];
  gas = 0;
  used_gas = 1;
  price = 5;
  args = [];
}

abbrev heap : Heap
heap p = pos (p + 10)

abbrev rich : Heap
rich p = if ltb_ℤ (pos 0) (pos p) then pos 3 else pos 20

use_gas_conserves_example : let h' = (use_gas callee 4 rich).1 in h' 0 +ℤ h' 1 ≡ rich 0 +ℤ rich 1
use_gas_conserves_example =
    use_gas_conserves callee 4 rich (omega arith) (omega arith) (omega arith)

return_closure_conserves_example :
    let h' = (return_closure callee (7 ∷ []) heap).1 in
    (h' 2 ≡ heap 2 +ℤ heap 0) × (h' 2 +ℤ h' 3 ≡ heap 2 +ℤ heap 3)
return_closure_conserves_example =
    return_closure_conserves callee (7 ∷ []) 2 3 heap refl (omega arith) (omega arith) (omega arith)
