-- ===== src/Ethvm/Vm/Termination.antt =====
-- `RunClosure` ends: a round takes gas, or clears a slot of the storage and goes on to the next
-- position.
use native.Mathlib.Nat.{mul-le-mul_right}
use eth_go.Common.{
  ℕ, zero, suc, ◌+◌, ◌*◌, ◌≤◌, ◌<◌, ◌≡◌, ◌≢◌, refl, sym, subst, arith, List, [], ◌∷◌, length, true,
  false, Bool-cases, ◌⊎◌, inl, inr, Result, ok, panic, out_of_fuel,
}
use eth_go.Common.Int.{ℤ, pos, pos_part, ltb_ℤ, ◌+ℤ◌, ◌-ℤ◌}
use eth_go.Ethstate.Trie.{TrieOps}
use eth_go.Ethvm.Words.{int64_of}
use eth_go.Ethvm.Stack.{Stack, peek}
use eth_go.Ethvm.Vm.{
  Env, World, Frame, Machine, Outcome, next, stop as stopped, failed, no_end, no_fuel, Returned,
  returned, forever, cut_off, recover,
}
use eth_go.Ethvm.Vm.Instruction.{Instruction, stop, suicide, sstore, call, create}
use eth_go.Ethvm.Vm.Cost.{cost, charge, out_of_gas}
use eth_go.Ethvm.Vm.Execute.{execute}
use eth_go.Ethvm.Vm.Run.{
  fetch, pay, step, finish, rounds, run_code, run_closure, enough_rounds, start,
}
use eth_go.Ethvm.Vm.Positions.{remaining, left_from_bound, remaining_next, fetch_inside}
use eth_go.Ethvm.Vm.NoCut.{NoCut, Bounded}
use eth_go.Ethvm.Vm.NoCut.World.{NoCut-sstore_step, NoCut-suicide_step, NoCut-cost, NoCut-fetch}
use eth_go.Ethvm.Vm.Gas.{
  asked, Below, next_below, stop_below, failed_below, Ends, returned_ends, forever_ends,
  execute-Below,
}
use eth_go.Ethvm.Vm.Gas.Calls.{call_step-Below, create_step-Below}
use eth_go.Ethvm.Vm.Gas.Floor.{floor, cost-floor}

abbrev pub measure : {T : Type 0} → Frame → Machine T → ℕ
measure f m = pos_part m.gas * (length f.code + 1) + remaining (length f.code) m.pc

measure_drop : (a b n r s : ℕ) → a < b → r ≤ n → a * (n + 1) + r < b * (n + 1) + s
measure_drop a b n r s h k =
    let less : (a + 1) * (n + 1) ≤ b * (n + 1) = mul-le-mul_right (n + 1) (omega arith) in
    omega (arith, less)

measure_next : (a b n r s : ℕ) → a ≤ b → r < s → a * (n + 1) + r < b * (n + 1) + s
measure_next a b n r s h k =
    let less : a * (n + 1) ≤ b * (n + 1) = mul-le-mul_right (n + 1) h in omega (arith, less)

Ends-weaken : {T : Type 0} (g g' : ℕ) (r : Returned T) → Ends g r → g ≤ g' → Ends g' r
Ends-weaken g g' (returned b ret left w) (returned_ends _ _ _ _ h) k =
    returned_ends b ret left w (omega arith)
Ends-weaken g g' forever h k = forever_ends
Ends-weaken g g' cut_off h k = elim h [ ]

data Falls {T : Type 0} (f : Frame) (m : Machine T) : Outcome T → Type 0 where
  next_falls :
      (m' : Machine T)
      → pos_part m'.gas ≤ pos_part m.gas
      → measure f m' < measure f m
      → Falls f m (next m')
  stop_falls :
      (ret : List ℕ) (m' : Machine T)
      → pos_part m'.gas ≤ pos_part m.gas
      → Falls f m (stopped ret m')
  failed_falls : (m' : Machine T) → pos_part m'.gas ≤ pos_part m.gas → Falls f m (failed m')
  no_end_falls : Falls f m no_end

Below-Falls :
    {T : Type 0} (f : Frame) (m : Machine T) (g : ℕ) (o : Outcome T)
    → Below g o
    → g < pos_part m.gas
    → Falls f m o
Below-Falls f m g (next m') (next_below _ h) k = next_falls m' (omega arith) (
    measure_drop _ _ (length f.code) _ _ (omega arith)
      (left_from_bound (length f.code) (int64_of m'.pc)))
Below-Falls f m g (stopped ret m') (stop_below _ _ h) k = stop_falls ret m' (omega arith)
Below-Falls f m g (failed m') (failed_below _ h) k = failed_falls m' (omega arith)
Below-Falls f m g no_end h k = no_end_falls
Below-Falls f m g no_fuel h k = elim h [ ]

Falls-recover :
    {T A : Type 0} (f : Frame) (m m1 : Machine T) (r : Result A) (k : A → Outcome T)
    → pos_part m1.gas ≤ pos_part m.gas
    → NoCut r
    → ((a : A) → r ≡ ok a → Falls f m (k a))
    → Falls f m (recover m1 r k)
Falls-recover f m m1 (ok a) k le h g = g a refl
Falls-recover f m m1 panic k le h g = failed_falls m1 le
Falls-recover f m m1 out_of_fuel k le h g = elim h [ ]

-- The instructions by what makes a round of them end.
Cases : Instruction → Type 0
Cases i =
    (i ≡ stop)
    ⊎ ((i ≡ suicide)
        ⊎ ((i ≡ sstore)
            ⊎ ((i ≡ call)
                ⊎ ((i ≡ create) ⊎ ((i ≢ call) × (i ≢ create) × ((st : Stack) → floor i st ≡ 1))))))

cases : (i : Instruction) → Cases i
unfolding Cases
cases stop = inl refl
cases suicide = inr (inl refl)
cases sstore = inr (inr (inl refl))
cases call = inr (inr (inr (inl refl)))
cases create = inr (inr (inr (inr (inl refl))))
cases _ = inr (inr (inr (inr (inr (cc, cc, λ st. refl)))))

-- What is left after an amount that there is.
sub_bound :
    (g a : ℤ) (n k : ℕ) → a ≡ pos (n + k) → ltb_ℤ g a ≡ false → (pos_part (g -ℤ a) + n ≤ pos_part g)
unfolding ◌-ℤ◌
sub_bound g a n k e h = ground arith

module _ {T : Type 0} (ops : TrieOps T) (sha3 : List ℕ → List ℕ) (env : Env)
    (run : Frame → ℤ → World T → Returned T) (fits : Bounded ops) where
  -- Every closure that is run on less than `bound` ends.
  abbrev pub Callee : ℕ → Type 0
  Callee bound =
      (f : Frame) (g : ℤ) (w : World T) → pos_part g < bound → Ends (pos_part g) (run f g w)

  suicide-Falls :
      (f : Frame) (m m1 : Machine T)
      → pos_part m1.gas ≤ pos_part m.gas
      → Falls f m (execute ops sha3 env run f suicide m1)
  unfolding execute
  suicide-Falls f m m1 h =
      Falls-recover f m m1 _ _ h (NoCut-suicide_step ops fits sha3 f.object m1.stack m1.world)
        (λ w e. stop_falls [] _ h)

  stop-Falls :
      (f : Frame) (m m1 : Machine T)
      → pos_part m1.gas ≤ pos_part m.gas
      → Falls f m (execute ops sha3 env run f stop m1)
  unfolding execute
  stop-Falls f m m1 h = stop_falls [] m1 h

  sstore-Falls :
      (f : Frame) (m m1 : Machine T)
      → pos_part m1.gas ≤ pos_part m.gas
      → remaining (length f.code) (m1.pc +ℤ pos 1) < remaining (length f.code) m.pc
      → Falls f m (execute ops sha3 env run f sstore m1)
  unfolding execute
  sstore-Falls f m m1 h k =
      Falls-recover f m m1 _ _ h (NoCut-sstore_step f.object f.message m1.stack m1.world)
        (λ r e. next_falls _ h (measure_next _ _ (length f.code) _ _ h k))

  -- A call pays for the gas that its closure gets; a creation gives all that is left.
  call-Falls :
      (f : Frame) (m m1 : Machine T)
      → Callee (pos_part m.gas)
      → pos_part m1.gas + (20 + asked (peek m1.stack)) ≤ pos_part m.gas
      → Falls f m (execute ops sha3 env run f call m1)
  unfolding execute
  call-Falls f m m1 ends h =
      Below-Falls f m _ _
        (call_step-Below ops sha3 run fits (pos_part m.gas) ends f m1 (omega arith)) (omega arith)

  create-Falls :
      (f : Frame) (m m1 : Machine T)
      → Callee (pos_part m.gas)
      → pos_part m1.gas < pos_part m.gas
      → Falls f m (execute ops sha3 env run f create m1)
  unfolding execute
  create-Falls f m m1 ends h =
      Below-Falls f m _ _ (create_step-Below ops sha3 run fits (pos_part m.gas) ends f m1 h) h

  execute-Falls :
      (f : Frame) (i : Instruction) (m m1 : Machine T)
      → Callee (pos_part m.gas)
      → fetch f m ≡ ok i
      → m1.pc ≡ m.pc
      → pos_part m1.gas + floor i m1.stack ≤ pos_part m.gas
      → Falls f m (execute ops sha3 env run f i m1)
  unfolding Cases
  execute-Falls f i m m1 ends e same h = elim (cases i) [
    | inl k ↦ rw k (stop-Falls f m m1 (omega arith))
    | inr (inl k) ↦ rw k (suicide-Falls f m m1 (omega arith))
    | inr (inr (inl k)) ↦
        let (x, at, inside) = fetch_inside f m i e (λ s. absurd (cc)) in
        rw k (
          sstore-Falls f m m1 (omega arith) (
            subst (λ z. remaining (length f.code) (z +ℤ pos 1) < remaining (length f.code) m.pc)
              (sym same) (remaining_next (length f.code) m.pc x at inside)))
    | inr (inr (inr (inl k))) ↦ rw k (
        call-Falls f m m1 ends
          (subst (λ j. pos_part m1.gas + floor j m1.stack ≤ pos_part m.gas) k h))
    | inr (inr (inr (inr (inl k)))) ↦
        let paid : pos_part m1.gas + 100 ≤ pos_part m.gas =
          subst (λ j. pos_part m1.gas + floor j m1.stack ≤ pos_part m.gas) k h in
        rw k (create-Falls f m m1 ends (omega arith))
    | inr (inr (inr (inr (inr (k, l, one))))) ↦
        Below-Falls f m _ _ (execute-Below ops sha3 env run fits f i m1 k l)
          (omega (arith, one m1.stack))
  ]

  pay-Falls :
      (f : Frame) (i : Instruction) (m : Machine T) (amount : ℤ) (size : ℕ) (w : World T)
      → Callee (pos_part m.gas)
      → fetch f m ≡ ok i
      → cost ops f.object i m ≡ ok (amount, size, w)
      → Falls f m (pay ops sha3 env run f i m (amount, size, w))
  unfolding pay charge out_of_gas
  pay-Falls f i m amount size w ends e c = elim (Bool-cases (ltb_ℤ m.gas amount)) [
    | inl k ↦ rw k (failed_falls _ (omega arith))
    | inr k ↦
        let (n, least) = cost-floor ops f.object i m amount size w c in
        rw k (
          execute-Falls f i m (charge m amount size w) ends e refl
            (sub_bound m.gas amount _ n least k))
  ]

  step-Falls :
      (f : Frame) (m : Machine T) → Callee (pos_part m.gas) → Falls f m (step ops sha3 env run f m)
  unfolding step
  step-Falls f m ends = Falls-recover f m m (fetch f m) _ (omega arith) (NoCut-fetch f m) (λ i e.
      Falls-recover f m m (cost ops f.object i m) _ (omega arith) (NoCut-cost ops fits f.object i m)
        (λ (amount, size, w) c. pay-Falls f i m amount size w ends e c))

  finish-Ends :
      (f : Frame) (m : Machine T) (o : Outcome T) (more : Machine T → Returned T)
      → Falls f m o
      → ((m' : Machine T)
          → pos_part m'.gas ≤ pos_part m.gas
          → measure f m' < measure f m
          → Ends (pos_part m'.gas) (more m'))
      → Ends (pos_part m.gas) (finish o more)
  unfolding finish
  finish-Ends f m (next m') more (next_falls _ h k) ends = Ends-weaken _ _ _ (ends m' h k) h
  finish-Ends f m (stopped ret m') more (stop_falls _ _ h) ends = returned_ends false ret _ _ h
  finish-Ends f m (failed m') more (failed_falls _ h) ends = returned_ends true [] _ _ h
  finish-Ends f m no_end more h ends = forever_ends
  finish-Ends f m no_fuel more h ends = elim h [ ]

  -- With a round for each unit of the measure the loop ends.
  rounds-Ends :
      (fuel : ℕ) (f : Frame) (m : Machine T)
      → Callee (pos_part m.gas)
      → measure f m < fuel
      → Ends (pos_part m.gas) (rounds ops sha3 env run fuel f m)
  unfolding rounds
  rounds-Ends zero f m ends h = absurd (omega arith)
  rounds-Ends (suc fuel) f m ends h =
      finish-Ends f m (step ops sha3 env run f m) (rounds ops sha3 env run fuel f)
        (step-Falls f m ends)
        (λ m' le less. rounds-Ends fuel f m' (λ f' g w k. ends f' g w (omega arith)) (omega arith))

  run_code-Ends :
      (f : Frame) (gas : ℤ) (w : World T) (code : List ℕ)
      → Callee (pos_part gas)
      → Ends (pos_part gas) (run_code ops sha3 env run f gas w code)
  unfolding run_code
  run_code-Ends f gas w [] ends = returned_ends false [] gas w (omega arith)
  run_code-Ends f gas w (b ∷ bs) ends =
      let few = left_from_bound (length f.code) (int64_of (pos 0)) in
      rounds-Ends (enough_rounds (length f.code) gas) f (start gas w) ends (omega (arith, few))

module _ {T : Type 0} (ops : TrieOps T) (sha3 : List ℕ → List ℕ) (env : Env)
    (fits : Bounded ops) where
  -- With a trie whose values are shorter than 2^63 bytes: RunClosure, run with closures nested no
  -- deeper than one more than the gas that it gets, is never cut off: the rounds that the model
  -- allows, one for each unit of gas and position of the code, are enough, for it and for every
  -- closure that it calls or creates. It returns, with no more gas left than the gas it got (none
  -- if that was negative), unless CREATE looks for an address that is taken, which the code does
  -- forever.
  pub run_closure-Ends :
      (depth : ℕ) (f : Frame) (gas : ℤ) (w : World T)
      → pos_part gas < depth
      → Ends (pos_part gas) (run_closure ops sha3 env depth f gas w)
  unfolding run_closure
  run_closure-Ends zero f gas w h = absurd (omega arith)
  run_closure-Ends (suc depth) f gas w h =
      run_code-Ends ops sha3 env (run_closure ops sha3 env depth) fits f gas w f.code
        (λ f' g w' k. run_closure-Ends depth f' g w' (omega arith))
