-- ===== src/Ethvm/Vm/Runs.antt =====
-- Runs of the machine, and its theorems at concrete inputs.
use eth_go.Ethutil.Bytes.{left_pad_bytes, to_bytes}
use eth_go.Ethutil.Value.{bytes_of}
use eth_go.Common.{same_bytes, slice}
use eth_go.Common.{
  ℕ, ◌+◌, ◌-◌, ◌^◌, ◌≡◌, refl, arith, List, [], ◌∷◌, ◌++◌, true, false, ok, panic, if◌then◌else◌,
  ◌==◌, replicate, none, lookup,
}
use eth_go.Common.Int.{pos, ◌+ℤ◌, ◌-ℤ◌}
use eth_go.Ethutil.Bytes.{address}
use eth_go.Ethstate.Trie.{TrieOps}
use eth_go.Ethstate.MapTrie.{MapTrie, map_trie}
use eth_go.Ethstate.Object.{StateObject, new_state_object}
use eth_go.Ethvm.Vm.Accounts.{word_bytes}
use eth_go.Ethstate.Accounts.{
  get_or_new_state_object, get_state_object, found_or_load, load_object, or_new, new_account, State,
  copy_state, set_state,
}
use eth_go.Ethvm.Words.{float64_of, float64_to_uint64}
use eth_go.Ethvm.Stack.{new_stack, push}
use eth_go.Ethvm.Closure.{Closure, Heap, account, use_gas}
use eth_go.Ethvm.Vm.{Env, World, Frame, Machine, next, returned, forever}
use eth_go.Ethvm.Vm.Instruction.{sub, modulo}
use eth_go.Ethvm.Vm.Arithmetic.{binary_op, neg_step, byte_at}
use eth_go.Ethvm.Vm.Arithmetic.Laws.{binary_op-word_op}
use eth_go.Ethvm.Vm.Cost.{charge, out_of_gas}
use eth_go.Ethvm.Vm.Calls.{call_with, create_at}
use eth_go.Ethvm.Vm.Calls.Reverts.{RevertsTo, call_with-RevertsTo, create_at_value}
use eth_go.Ethvm.Vm.Gas.{Ends}
use eth_go.Ethvm.Vm.Gas.Pointers.{Stands, use_gas-charge}
use eth_go.Ethvm.Vm.Run.{run_closure, start}
use eth_go.Ethvm.Vm.Termination.{run_closure-Ends}

abbrev digest : List ℕ → List ℕ
digest bs = replicate 32 7

abbrev no_block : Env
no_block = record {
  origin = [];
  block_number = pos 9;
  prev_hash = [];
  coinbase = [];
  time = pos 1;
  difficulty = pos 2;
  value = pos 3;
  block_hash = [];
}

abbrev nobody : StateObject MapTrie
nobody = new_state_object map_trie []

abbrev world : World MapTrie
world = record {
  state = record { trie = []; state_objects = []; heap = λ h. nobody; next = 1; codes = [] };
  messages = [];
}

abbrev frame : List ℕ → Frame
frame code = record { object = 0; message = 0; code = code; args = []; price = pos 1; caller = [] }

-- 2 + 3, kept in memory and returned.
abbrev sum_code : List ℕ
sum_code = 0x60 ∷ 2 ∷ 0x60 ∷ 3 ∷ 0x01 ∷ 0x60 ∷ 0 ∷ 0x54 ∷ 0x60 ∷ 32 ∷ 0x60 ∷ 0 ∷ 0xf2 ∷ []

-- What is left of 100 units, and the 32 bytes.
sum_run :
    run_closure map_trie digest no_block 1 (frame sum_code) (pos 100) world
    ≡ returned false (replicate 31 0 ++ (5 ∷ [])) (pos 91) world
unfolding run_closure ◌+ℤ◌ bytes_of ◌-ℤ◌
sum_run = refl

-- Eight units do not do.
poor_run :
    run_closure map_trie digest no_block 1 (frame sum_code) (pos 8) world
    ≡ returned true [] (pos 0) world
unfolding run_closure ◌+ℤ◌ bytes_of ◌-ℤ◌
poor_run = refl

-- A loop: JUMPDEST is not there yet, so that the jump goes to its own PUSH.
loop_run :
    run_closure map_trie digest no_block 1 (frame (0x60 ∷ 0 ∷ 0x58 ∷ [])) (pos 9) world
    ≡ returned true [] (pos 0) world
unfolding run_closure ◌+ℤ◌ bytes_of ◌-ℤ◌
loop_run = refl

-- NEG of 0 is 2 ^ 256, which is no word.
neg_zero : neg_step (record { words = pos 0 ∷ [] }) ≡ ok (record { words = pos (2 ^ 256) ∷ [] })
unfolding neg_step slice ◌-ℤ◌
neg_zero = refl

-- A remainder by 0 panics.
mod_zero : binary_op modulo (pos 7) (pos 0) ≡ panic
unfolding binary_op
mod_zero = refl

-- A float64 has 53 bits: halves go to the even neighbour, and the largest uint64 goes out of range.
float64_down : float64_of (2 ^ 53 + 1) ≡ 2 ^ 53
unfolding float64_of
float64_down = refl

float64_up : float64_of (2 ^ 53 + 3) ≡ 2 ^ 53 + 4
unfolding float64_of
float64_up = refl

float64_out : float64_to_uint64 (float64_of (2 ^ 64 - 1)) ≡ 0
unfolding float64_of float64_to_uint64
float64_out = refl

-- BYTE finds the bytes of a word by their number, but not the last byte of a short word.
last_byte : byte_at (pos 5) (pos 31) ≡ ok (pos 0)
unfolding byte_at
last_byte = refl

-- A trie that has nothing.
abbrev empty_trie : TrieOps MapTrie
empty_trie = record map_trie { get = λ t k. [] }

run_closure-Ends_example :
    Ends 100 (run_closure empty_trie digest no_block 101 (frame sum_code) (pos 100) world)
run_closure-Ends_example =
    run_closure-Ends empty_trie digest no_block (λ t k. omega arith) 101 (frame sum_code) (pos 100)
      world (omega arith)

binary_op-word_op_example : binary_op sub (pos 2) (pos 3) ≡ ok (pos (2 ^ 256 - 1))
binary_op-word_op_example = binary_op-word_op sub 2 3 (omega arith) (omega arith)

-- An object at handle 0 under the address of twenty sevens.
abbrev seven : List ℕ
seven = replicate 20 7

abbrev owner : StateObject MapTrie
owner = record (new_state_object map_trie seven) { balance = pos 50 }

abbrev owned : State MapTrie
owned = record {
  trie = [];
  state_objects = (seven, 0) ∷ [];
  heap = λ h. owner;
  next = 1;
  codes = [];
}

abbrev machine : Machine MapTrie
machine = start (pos 60) (record { state = owned; messages = [] })

-- A call of three units to an account that the state has not, whose closure fails.
call_with-RevertsTo_example : RevertsTo map_trie owned machine new_stack (pos 5) (
    call_with map_trie digest
      (λ f g w. returned true [] (pos 5) w)
      (frame [])
      machine
      new_stack
      (pos 5)
      (pos 3)
      (pos 9)
      []
      (pos 0)
      (pos 0))
unfolding get_or_new_state_object get_state_object found_or_load load_object or_new new_account
    lookup same_bytes address left_pad_bytes to_bytes
call_with-RevertsTo_example =
    call_with-RevertsTo map_trie digest (λ f g w. returned true [] (pos 5) w) (frame []) machine
      new_stack (pos 5) (pos 3) (pos 9) [] (pos 0) (pos 0) 1
      (new_account map_trie digest owned (word_bytes (pos 9))).1 [] (pos 5) _ refl refl refl

create_at_value_example :
    (m' : Machine MapTrie) × (now : State MapTrie) × (create_at map_trie digest
        (λ f g w. forever)
        (frame [])
        machine
        new_stack
        (copy_state map_trie owned)
        seven
        (pos 3)
        (pos 0)
        (pos 0)
        none
        owned
      ≡ next m')
    × (m'.stack ≡ push (pos 0) new_stack)
    × (m'.gas ≡ machine.gas)
    × (m'.world.state ≡ set_state now (copy_state map_trie owned))
create_at_value_example =
    create_at_value map_trie digest (λ f g w. forever) (frame []) machine new_stack
      (copy_state map_trie owned) seven 3 (pos 0) (pos 0) owned (omega arith)

-- Gas at 0, used gas at 1, an amount at 4.
abbrev pointers : Closure
pointers = record { caller = account; code = []; gas = 0; used_gas = 1; price = 5; args = [] }

abbrev amounts : Heap
amounts p = if p == 0 then pos 60 else if p == 4 then pos 7 else pos 0

use_gas-charge_example :
    let (done, h') = use_gas pointers 4 amounts in
    (done ≡ true)
    × (Stands pointers h' (if done then charge machine (pos 7) 32 machine.world else machine))
    × (Stands pointers (use_gas pointers 0 amounts).1 (out_of_gas machine))
use_gas-charge_example =
    use_gas-charge pointers amounts machine 4 32 machine.world (omega arith) (omega arith)
      (omega arith) (refl, refl)
