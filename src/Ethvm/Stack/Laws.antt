-- ===== src/Ethvm/Stack/Laws.antt =====
-- The stack as a list that is read from the top.
use eth_go.Common.{
  ℕ, ◌+◌, ◌≡◌, refl, sym, ap, ◌∙◌, arith, List, [], ◌∷◌, ◌++◌, append_assoc, length, length-append,
  get_elem?, get_elem?-append, ok, panic, some, slice as slice_of, slice-append, snoc_cases, ◌⊎◌,
  inl, inr,
}
use eth_go.Common.Int.{ℤ}
use eth_go.Ethvm.Stack.{Stack, pop, popn, push, dupn, require}

prefix_slice : (xs ys : List ℤ) (n : ℕ) → n ≡ length xs → slice_of (xs ++ ys) 0 n ≡ ok xs
prefix_slice xs ys n h = slice-append [] xs ys 0 n refl (omega arith)

-- `Pop` takes back what `Push` put on top, and the stack is as before.
pub pop-push : (d : ℤ) (st : Stack) → pop (push d st) ≡ ok (d, st)
unfolding pop push
pop-push d st = ground (
  arith,
  length-append st.words (d ∷ []),
  get_elem?-append st.words d [] (length st.words),
  prefix_slice st.words (d ∷ []) (length st.words),
)

-- `Popn` takes back two pushes: the word that was pushed first comes first.
pub popn-push-push : (a b : ℤ) (st : Stack) → popn (push b (push a st)) ≡ ok (a, b, st)
unfolding popn push
popn-push-push a b st = rw append_assoc (
    ground (
      arith,
      length-append st.words (a ∷ b ∷ []),
      get_elem?-append st.words a (b ∷ []) (length st.words),
      get_elem?_second st.words a b,
      prefix_slice st.words (a ∷ b ∷ []) (length st.words),
    ))
  where
    get_elem?_second :
        (xs : List ℤ) (a b : ℤ) → get_elem? (xs ++ (a ∷ b ∷ [])) (length xs + 1) ≡ some b
    get_elem?_second xs a b =
        ap (λ l. get_elem? l (length xs + 1)) (sym (append_assoc xs (a ∷ []) (b ∷ [])))
        ∙ get_elem?-append (xs ++ (a ∷ [])) b [] (length xs + 1)
            (omega (arith, length-append xs (a ∷ [])))

-- `Pop` panics on an empty stack, and on any other takes off what was pushed last.
pub pop_cases :
    (st : Stack)
    → ((st.words ≡ []) × (pop st ≡ panic))
      ⊎ ((d : ℤ) × (rest : Stack) × (st ≡ push d rest) × (pop st ≡ ok (d, rest)))
pop_cases st = elim (snoc_cases st.words) [
  | inl e ↦ inl (e, unfold pop in rw e)
  | inr (ws, d, e) ↦
      let rest : Stack = record { words = ws } in
      let whole : st ≡ push d rest = unfold push in λ i. record { words = e i } in
      inr (d, rest, whole, ap pop whole ∙ pop-push d rest)
]

-- Where `require(2)` passes, the two words that `Popn` takes are there.
pub require-popn :
    (st : Stack)
    → require 2 st ≡ ok tt
    → (a : ℤ) × (b : ℤ) × (rest : Stack) × (st ≡ push b (push a rest)) × (popn st ≡ ok (a, b, rest))
require-popn st h = elim (pop_cases st) [
  | inl (e, p) ↦ absurd (unfold require in ground (arith, e))
  | inr (b, st', e, p) ↦ elim (pop_cases st') [
    | inl (e', p') ↦ absurd (unfold require push in ground (arith, e, e'))
    | inr (a, rest, e', p') ↦
        let whole : st ≡ push b (push a rest) = e ∙ ap (push b) e' in
        (a, b, rest, whole, ap popn whole ∙ popn-push-push a b rest)
  ]
]

-- `DUP` takes its word from the bottom of the stack: whatever stands above it does not count.
pub dupn_lem :
    (below above : List ℤ) (d : ℤ)
    → dupn (length below) (record { words = below ++ (d ∷ above) })
      ≡ ok (d, push d (record { words = below ++ (d ∷ above) }))
unfolding dupn
dupn_lem below above d = ground (
  arith,
  get_elem?-append below d above (length below),
  length-append (below ++ (d ∷ above)) (d ∷ []),
  get_elem?-append (below ++ (d ∷ above)) d [] (length (below ++ (d ∷ above))),
)
