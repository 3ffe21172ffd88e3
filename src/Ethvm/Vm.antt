-- ===== src/Ethvm/Vm.antt =====
-- ethvm/vm.go: the machine that `RunClosure` runs. The debugger is off (`Dbg` is nil) and `Recoverable`
-- is set, as `New` sets it; what is printed is left out. A closure's gas and used gas are values
-- here: while it runs, no other holds their pointers but itself.
pub mod Instruction
pub mod Arithmetic
pub mod Offsets
pub mod Cost
pub mod Accounts
pub mod Calls
pub mod Steps
pub mod Execute
pub mod Run
pub mod NoCut
pub mod Gas
pub mod Positions
pub mod Termination
mod Runs
use eth_go.Common.{ℕ, List, Bool, Result, ok, panic, out_of_fuel}
use eth_go.Common.Int.{ℤ}
use eth_go.Ethstate.Accounts.{State}
use eth_go.Ethvm.Stack.{Stack}
use eth_go.Ethvm.Memory.{Memory}

-- `Environment`, less its `State`.
pub record Env : Type 0 where
  pub origin : List ℕ
  pub block_number : ℤ
  pub prev_hash : List ℕ
  pub coinbase : List ℕ
  pub time : ℤ
  pub difficulty : ℤ
  pub value : ℤ
  pub block_hash : List ℕ

-- `Message` of ethstate/manifest.go, less what all messages of a run have from the environment.
pub record Message : Type 0 where
  pub to : List ℕ
  pub from : List ℕ
  pub input : List ℕ
  pub output : List ℕ
  pub value : ℤ
  pub changed_addresses : List (List ℕ)

-- The state, and the messages of its manifest.
pub record World (T : Type 0) : Type 0 where
  pub state : State T
  pub messages : List Message

-- What a closure does not change: its object and its message, by their handle and their place, its
-- code and arguments, the price, and the address of its caller.
pub record Frame : Type 0 where
  pub object : ℕ
  pub message : ℕ
  pub code : List ℕ
  pub args : List ℕ
  pub price : ℤ
  pub caller : List ℕ

pub record Machine (T : Type 0) : Type 0 where
  pub stack : Stack
  pub mem : Memory
  pub pc : ℤ
  pub gas : ℤ
  pub used_gas : ℤ
  pub world : World T

-- What one round of the loop does: it goes on, it returns, or it fails: with an error or by a panic,
-- from which `RunClosure` recovers, or it never ends.
pub data Outcome (T : Type 0) : Type 0 where
  next : Machine T → Outcome T
  stop : List ℕ → Machine T → Outcome T
  failed : Machine T → Outcome T
  no_end no_fuel : Outcome T

-- What `RunClosure` returns: whether it fails, the bytes, the gas that `Return` gives to the caller,
-- and the world. A loop of the code that does not end is `forever`, one of the model that is out of
-- fuel is `cut_off`; an outcome has `no_end` and `no_fuel` for them.
pub data Returned (T : Type 0) : Type 0 where
  returned : Bool → List ℕ → ℤ → World T → Returned T
  forever cut_off : Returned T

-- A panic leaves the machine as it is.
abbrev pub recover : {T A : Type 0} → Machine T → Result A → (A → Outcome T) → Outcome T
recover m (ok a) f = f a
recover m panic f = failed m
recover m out_of_fuel f = no_fuel
