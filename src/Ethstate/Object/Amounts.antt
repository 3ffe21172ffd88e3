-- ===== src/Ethstate/Object/Amounts.antt =====
-- Balances and the gas pool of an object.
use eth_go.Common.{◌≡◌, refl, arith, Bool, true, false, none, some, if◌then◌else◌}
use eth_go.Common.Int.{ℤ, pos, ltb_ℤ, ◌+ℤ◌, ◌-ℤ◌, ◌*ℤ◌, ◌≤ℤ◌, int_laws}
use eth_go.Ethstate.Object.{StateObject, set_balance, add_amount, sub_amount, convert_gas, buy_gas}

-- A guarded result that is there says that the guard let it pass.
pub guard_passes :
    {A : Type 0} (b : Bool) (x y : A)
    → (if b then none else some x) ≡ some y
    → (b ≡ false) × (y ≡ x)
guard_passes true x y h = absurd (cc)
guard_passes false x y h = (refl, cc)

paid : (a b : ℤ) → ltb_ℤ a b ≡ false → (b ≤ℤ a) × (pos 0 ≤ℤ (a -ℤ b)) × ((a -ℤ b) +ℤ b ≡ a)
paid a b h = let le : b ≤ℤ a = ground arith in (le, unfold ◌-ℤ◌ in ground arith, omega int_laws)

module _ {T : Type 0} where
  -- Gas is converted exactly where the balance covers its price; then the price is taken off, so
  -- that the balance does not go below zero, and nothing else changes.
  pub convert_gas_lem :
      (o o' : StateObject T) (gas price : ℤ)
      → convert_gas o gas price ≡ some o'
      → (gas *ℤ price ≤ℤ o.balance)
        × (pos 0 ≤ℤ o'.balance)
        × (o'.balance +ℤ gas *ℤ price ≡ o.balance)
        × (o' ≡ set_balance o o'.balance)
  unfolding convert_gas sub_amount set_balance
  convert_gas_lem o o' gas price h =
      let total = gas *ℤ price in
      let (enough, same) = guard_passes (ltb_ℤ o.balance total) (sub_amount o total) o' h in
      let (le, rest, sum) = paid o.balance total enough in rw same (le, rest, sum, refl)

  -- A purchase of gas takes nothing off the pool: it adds the price to the balance, and as many
  -- purchases of the same size as one likes succeed after it.
  pub buy_gas_again :
      (o o' : StateObject T) (gas price : ℤ)
      → buy_gas o gas price ≡ some o'
      → (o'.gas_pool ≡ o.gas_pool)
        × (o'.balance ≡ o.balance +ℤ gas *ℤ price)
        × (buy_gas o' gas price ≡ some (add_amount o' (gas *ℤ price)))
  unfolding buy_gas add_amount set_balance
  buy_gas_again o o' gas price h =
      let total = gas *ℤ price in
      let (enough, same) = guard_passes (ltb_ℤ o.gas_pool gas) (add_amount o total) o' h in
      rw same (refl, refl, rw enough refl)
