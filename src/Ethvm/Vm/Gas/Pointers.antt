-- ===== src/Ethvm/Vm/Gas/Pointers.antt =====
-- The gas of ethvm/closure.go lies behind pointers, and the machine of ethvm/vm.go keeps it as a
-- value: the operations of the two agree.
use eth_go.Common.{ℕ, ◌≡◌, ◌≢◌, refl, arith, List, true, false, if◌then◌else◌}
use eth_go.Common.Int.{ltb_ℤ}
use eth_go.Ethvm.Closure.{Heap, Closure, closure_ref, use_gas, return_gas, return_closure}
use eth_go.Ethvm.Closure.Gas.{use_gas_lem, use_gas_own}
use eth_go.Ethvm.Vm.{World, Machine}
use eth_go.Ethvm.Vm.Cost.{charge, out_of_gas}
use eth_go.Ethvm.Vm.Calls.{give_back}

-- The machine has the numbers behind the closure's pointers.
abbrev pub Stands : {T : Type 0} → Closure → Heap → Machine T → Type 0
Stands c h m = (m.gas ≡ h c.gas) × (m.used_gas ≡ h c.used_gas)

-- Of a closure with pointers apart and a machine that has the numbers behind them: UseGas succeeds
-- exactly if the machine has the amount; then the closure stands for the machine after the charge,
-- and else for the machine as it was; and UseGas with the pointer of the closure's own gas stands
-- for the machine that is out of gas.
pub use_gas-charge :
    {T : Type 0} (c : Closure) (h : Heap) (m : Machine T) (p size : ℕ) (w : World T)
    → c.gas ≢ c.used_gas
    → c.gas ≢ p
    → c.used_gas ≢ p
    → Stands c h m
    → let (done, h') = use_gas c p h in
      (done ≡ (if ltb_ℤ m.gas (h p) then false else true))
      × (Stands c h' (if done then charge m (h p) size w else m))
      × (Stands c (use_gas c c.gas h).1 (out_of_gas m))
unfolding charge out_of_gas
use_gas-charge c h m p size w a b d (e, f) =
    let (done, gas, used, others) = use_gas_lem c p h a b d in
    let (own, none_left, kept) = use_gas_own c h a in
    (
      ground (arith, done, e),
      (ground (arith, done, gas, e), ground (arith, done, used, f)),
      (ground (arith, none_left), ground (arith, kept, f)),
    )

pub return_closure-give_back :
    {T : Type 0} (c callee : Closure) (ret : List ℕ) (h : Heap) (m : Machine T)
    → callee.caller ≡ closure_ref c.gas c.used_gas
    → c.gas ≢ c.used_gas
    → c.gas ≢ callee.gas
    → c.used_gas ≢ callee.gas
    → Stands c h m
    → let (out, h') = return_closure callee ret h in
      (out ≡ ret) × (Stands c h' (give_back (h callee.gas) m))
unfolding return_closure return_gas give_back
return_closure-give_back c callee ret h m k a b d (e, f) =
    rw k (refl, (ground (arith, e), ground (arith, e, f)))
