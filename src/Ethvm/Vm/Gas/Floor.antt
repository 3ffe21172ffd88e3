-- ===== src/Ethvm/Vm/Gas/Floor.antt =====
-- The least gas that an instruction costs.
use eth_go.Common.{
  ℕ, ◌+◌, ◌*◌, ◌≡◌, refl, sym, ap, subst, arith, ok, Yields, yields, Yields-bind, Yields-ok,
}
use eth_go.Common.Int.{ℤ, pos, negsuc, pos_part, ◌+ℤ◌}
use eth_go.Ethutil.Value.{big_int}
use eth_go.Ethstate.Trie.{TrieOps}
use eth_go.Ethvm.Stack.{Stack, peek, peekn}
use eth_go.Ethvm.Vm.{World, Machine}
use eth_go.Ethvm.Vm.Gas.{asked}
use eth_go.Ethvm.Vm.Instruction.{
  Instruction, stop, suicide, sload, sstore, balance, sha3 as sha3_code, call, create,
}
use eth_go.Ethvm.Vm.Cost.{
  step_gas, cost, memory_need, whole_words, memory_gas, store_mult, get_storage, present, call_gas,
}

-- Only an instruction that stops, or one that clears a slot, costs nothing.
abbrev pub floor : Instruction → Stack → ℕ
floor stop st = 0
floor suicide st = 0
floor sstore st = 0
floor create st = 100
floor call st = 20 + asked (peek st)
floor _ st = 1

abbrev AtLeast : ℕ → ℤ → Type 0
AtLeast n z = (k : ℕ) × (z ≡ pos (n + k))

call_gas-AtLeast : (top : ℤ) → AtLeast (20 + pos_part top) (call_gas top)
unfolding ◌+ℤ◌
call_gas-AtLeast (pos n) = (0, ground arith)
call_gas-AtLeast (negsuc n) = (0, ground arith)

module _ {T : Type 0} (ops : TrieOps T) where
  abbrev FirstAtLeast : ℕ → ℤ × World T → Type 0
  FirstAtLeast n (z, w) = AtLeast n z

  abbrev CostAtLeast : ℕ → ℤ × ℕ × World T → Type 0
  CostAtLeast n (z, size, w) = AtLeast n z

  step_gas-AtLeast :
      (object : ℕ) (i : Instruction) (st : Stack) (w : World T)
      → Yields (FirstAtLeast (floor i st)) (step_gas ops object i st w)
  unfolding step_gas
  step_gas-AtLeast object stop st w = yields _ (0, refl)
  step_gas-AtLeast object suicide st w = yields _ (0, refl)
  step_gas-AtLeast object sload st w = yields _ (19, refl)
  step_gas-AtLeast object balance st w = yields _ (19, refl)
  step_gas-AtLeast object sha3_code st w = yields _ (19, refl)
  step_gas-AtLeast object sstore st w = Yields-bind _ (peekn st) _ (λ (y, x) e.
      Yields-bind _ (get_storage ops object x w) _ (λ (v, w1) e1.
        Yields-bind _ (big_int v) _ (λ n e2.
          Yields-bind _ (present n) _
            (λ old e3. yields _ (store_mult old y * 100, ap pos (omega arith))))))
  step_gas-AtLeast object call st w = Yields-bind _ (peek st) _ (λ top e.
      yields _ (subst (λ r. AtLeast (20 + asked r) (call_gas top)) (sym e) (call_gas-AtLeast top)))
  step_gas-AtLeast object create st w = yields _ (0, refl)
  step_gas-AtLeast object _ st w = yields _ (0, refl)

  add_more : (n : ℕ) (z : ℤ) (more : ℕ) → AtLeast n z → AtLeast n (z +ℤ pos more)
  unfolding ◌+ℤ◌
  add_more n z more (k, e) = (k + more, rw e (ground arith))

  -- With the memory.
  cost-AtLeast :
      (object : ℕ) (i : Instruction) (m : Machine T)
      → Yields (CostAtLeast (floor i m.stack)) (cost ops object i m)
  unfolding cost
  cost-AtLeast object i m = Yields-bind _ (memory_need i m.stack) _ (λ n e.
      Yields-bind _ (step_gas ops object i m.stack m.world) _ (λ (gas, w) e1.
        let least =
          Yields-ok (FirstAtLeast (floor i m.stack)) (gas, w)
            (subst (Yields (FirstAtLeast (floor i m.stack))) e1
              (step_gas-AtLeast object i m.stack m.world)) in
        yields _ (add_more _ gas (memory_gas (whole_words n) m.mem) least)))

  pub cost-floor :
      (object : ℕ) (i : Instruction) (m : Machine T) (z : ℤ) (size : ℕ) (w : World T)
      → cost ops object i m ≡ ok (z, size, w)
      → (k : ℕ) × (z ≡ pos (floor i m.stack + k))
  cost-floor object i m z size w e =
      Yields-ok (CostAtLeast (floor i m.stack)) (z, size, w)
        (subst (Yields (CostAtLeast (floor i m.stack))) e (cost-AtLeast object i m))
