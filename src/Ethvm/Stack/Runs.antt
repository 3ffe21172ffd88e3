-- ===== src/Ethvm/Stack/Runs.antt =====
-- Runs of the stack, and its theorems at concrete inputs.
use eth_go.Common.{◌≡◌, refl, [], ◌∷◌, ok, panic, slice as slice_of}
use eth_go.Common.Int.{pos}
use eth_go.Ethvm.Stack.{Stack, pop, popn, push, dupn, swapn, get}
use eth_go.Ethvm.Stack.Laws.{pop-push, popn-push-push}

abbrev three : Stack
three = record { words = pos 1 ∷ pos 2 ∷ pos 3 ∷ [] }

-- DUP1 on one word: `st.data[1]` is out of range.
dup_one : dupn 1 (record { words = pos 7 ∷ [] }) ≡ panic
unfolding dupn
dup_one = refl

swap_two : swapn 2 three ≡ ok (pos 1, pos 3, record { words = pos 3 ∷ pos 2 ∷ pos 1 ∷ [] })
unfolding swapn
swap_two = refl

get_two : get 2 three ≡ ok (pos 2 ∷ pos 3 ∷ [])
unfolding get slice_of
get_two = refl

pop-push_example : pop (push (pos 4) three) ≡ ok (pos 4, three)
pop-push_example = pop-push (pos 4) three

popn-push-push_example : popn (push (pos 5) (push (pos 4) three)) ≡ ok (pos 4, pos 5, three)
popn-push-push_example = popn-push-push (pos 4) (pos 5) three
