-- ===== src/Ethvm/Vm/Run.antt =====
-- ethvm/vm.go: a round of the loop, the loop, and `RunClosure`.
use eth_go.Common.{
  ℕ, zero, suc, ◌+◌, ◌*◌, List, [], ◌∷◌, true, false, if◌then◌else◌, length, Result, ok, ◌>>=◌,
}
use eth_go.Common.Int.{ℤ, pos, pos_part, ltb_ℤ}
use eth_go.Ethutil.Value.{uint_of}
use eth_go.Ethstate.Trie.{TrieOps}
use eth_go.Ethvm.Words.{int64_of}
use eth_go.Ethvm.Stack.{new_stack}
use eth_go.Ethvm.Memory.{empty_memory}
use eth_go.Ethvm.Vm.{
  Env, World, Frame, Machine, Outcome, next, stop as stopped, failed, no_end, no_fuel, Returned,
  returned, forever, cut_off, recover,
}
use eth_go.Ethvm.Vm.Instruction.{Instruction, instruction_of}
use eth_go.Ethvm.Vm.Offsets.{gets_at}
use eth_go.Ethvm.Vm.Cost.{cost, charge, out_of_gas}
use eth_go.Ethvm.Vm.Execute.{execute}

module _ {T : Type 0} where
  -- The instruction at `pc`: no instruction but `STOP` behind the code.
  unfoldable pub fetch : Frame → Machine T → Result Instruction
  unfolding gets_at int64_of uint_of instruction_of
  fetch f m = do val ← gets_at f.code (int64_of m.pc) 1; op ← uint_of val; ok (instruction_of op)

  -- What `RunClosure` makes of a round, with the rounds that follow.
  unfoldable pub finish : Outcome T → (Machine T → Returned T) → Returned T
  finish (next m) more = more m
  finish (stopped ret m) more = returned false ret m.gas m.world
  finish (failed m) more = returned true [] m.gas m.world
  finish no_end more = forever
  finish no_fuel more = cut_off

abbrev pub start : {T : Type 0} → ℤ → World T → Machine T
start gas w = record {
  stack = new_stack;
  mem = empty_memory;
  pc = pos 0;
  gas = gas;
  used_gas = pos 0;
  world = w;
}

-- A round for each unit of gas and position in the code.
abbrev pub enough_rounds : ℕ → ℤ → ℕ
enough_rounds len gas = pos_part gas * (len + 1) + len + 1

module _ {T : Type 0} (ops : TrieOps T) (sha3 : List ℕ → List ℕ) (env : Env)
    (run : Frame → ℤ → World T → Returned T) where
  -- From where the gas of the instruction is known.
  unfoldable pub pay : Frame → Instruction → Machine T → ℤ × ℕ × World T → Outcome T
  unfolding out_of_gas charge execute
  pay f i m (amount, size, w) =
      if ltb_ℤ m.gas amount
      then failed (out_of_gas (record m { world = w }))
      else execute ops sha3 env run f i (charge m amount size w)

  -- One round of the loop.
  unfoldable pub step : Frame → Machine T → Outcome T
  unfolding fetch cost pay
  step f m = recover m (fetch f m) (λ i. recover m (cost ops f.object i m) (pay f i m))

  unfoldable pub rounds : ℕ → Frame → Machine T → Returned T
  unfolding finish step
  rounds zero f m = cut_off
  rounds (suc fuel) f m = finish (step f m) (rounds fuel f)

  -- With no code there is nothing to run.
  unfoldable pub run_code : Frame → ℤ → World T → List ℕ → Returned T
  unfolding rounds
  run_code f gas w [] = returned false [] gas w
  run_code f gas w (b ∷ bs) = rounds (enough_rounds (length f.code) gas) f (start gas w)

-- `RunClosure`, for closures that lie `depth` deep at most.
module _ {T : Type 0} (ops : TrieOps T) (sha3 : List ℕ → List ℕ) (env : Env) where
  unfoldable pub run_closure : ℕ → Frame → ℤ → World T → Returned T
  unfolding run_code
  run_closure zero f gas w = cut_off
  run_closure (suc depth) f gas w = run_code ops sha3 env (run_closure depth) f gas w f.code
