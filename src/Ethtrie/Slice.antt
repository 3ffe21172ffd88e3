-- ===== src/Ethtrie/Slice.antt =====
-- ethtrie/slice.go: nibble slices compared.
mod Runs
use eth_go.Common.{
  ℕ, zero, suc, ◌+◌, ◌≤◌, ◌<◌, ◌≡◌, ◌≢◌, refl, sym, ap, ◌∙◌, ◌↔◌, arith, List, [], ◌∷◌, ◌++◌, Bool,
  true, false, not, ◌==◌, ==_iff, if◌then◌else◌, length, get_elem?, take, drop, min, Bool-cases,
  inl, inr, Option, some, none, get_elem?-some, get_elem?_lt, drop_cons, drop_all, take-suc,
}
use mathlib.Core.Bool.{false≢true}
use native.Mathlib.Numerals.{add-one}

-- The loop of `CompareIntSlice` at index `i`: `rest` is what of `a` is left. An index behind `b`
-- cannot be met, since the lengths are equal.
unfoldable pub compare_from : List ℕ → List ℕ → ℕ → Bool
compare_from [] b i = true
compare_from (v ∷ rest) b i =
    let more = compare_from rest b (i + 1) in
    elim (get_elem? b i) [ none ↦ false | some w ↦ if v == w then more else false ]

unfoldable pub compare_int_slice : List ℕ → List ℕ → Bool
unfolding compare_from
compare_int_slice a b = if length a == length b then compare_from a b 0 else false

-- The loop of `MatchingNibbleLength`: `rounds` is `length - i`.
unfoldable pub matching_from : ℕ → List ℕ → List ℕ → ℕ → ℕ
matching_from zero a b i = i
matching_from (suc rounds) a b i =
    let more = matching_from rounds a b (i + 1) in
    elim (get_elem? a i) [
      | none ↦ i
      | some v ↦ elim (get_elem? b i) [ none ↦ i | some w ↦ if v == w then more else i ]
    ]

-- `math.Min` on float64 is exact on the lengths of slices.
unfoldable pub matching_nibble_length : List ℕ → List ℕ → ℕ
unfolding matching_from
matching_nibble_length a b = matching_from (min (length a) (length b)) a b 0

-- The loop meets the elements of `b` behind the first `i`.
compare_from-drop :
    (a b : List ℕ) (i : ℕ) → length b ≡ i + length a → (compare_from a b i ≡ true) ↔ (a ≡ drop i b)
unfolding compare_from
compare_from-drop [] b i h = (λ _. sym (drop_all b i (omega arith)), λ _. refl)
compare_from-drop (v ∷ a) b i h =
    let (w, e) = get_elem?-some b i (omega arith) in
    rw (drop_cons b i w e) (ground (arith, e, add-one i, compare_from-drop a b (i + 1)))

-- `CompareIntSlice` decides equality.
pub compare_int_slice_iff : (a b : List ℕ) → (compare_int_slice a b ≡ true) ↔ (a ≡ b)
unfolding compare_int_slice
compare_int_slice_iff a b = elim (Bool-cases (length a == length b)) [
  | inl e ↦ rw e (compare_from-drop a b 0 (ground arith))
  | inr e ↦ rw e ((λ h. absurd (false≢true h)), λ h. absurd (false≢true (sym e ∙ ground arith)))
]

-- `n` is the length of the longest common prefix of `a` and `b`.
pub record IsMatch (a b : List ℕ) (n : ℕ) : Type 0 where
  pub agree : take n a ≡ take n b
  pub within_a : n ≤ length a
  pub within_b : n ≤ length b
  pub longest : (v w : ℕ) → get_elem? a n ≡ some v → get_elem? b n ≡ some w → v ≢ w

matching_step :
    (rounds : ℕ) (a b : List ℕ) (i v w : ℕ)
    → get_elem? a i ≡ some v
    → get_elem? b i ≡ some w
    → matching_from (suc rounds) a b i ≡ (if v == w then matching_from rounds a b (i + 1) else i)
unfolding matching_from
matching_step rounds a b i v w p q = ground arith

matching_from-IsMatch :
    (rounds : ℕ) (a b : List ℕ) (i : ℕ)
    → rounds + i ≡ min (length a) (length b)
    → take i a ≡ take i b
    → IsMatch a b (matching_from rounds a b i)
unfolding matching_from
matching_from-IsMatch zero a b i h same = record {
  agree = same;
  within_a = omega arith;
  within_b = omega arith;
  longest = λ v w p q. absurd (omega (arith, get_elem?_lt a i v p, get_elem?_lt b i w q));
}
matching_from-IsMatch (suc rounds) a b i h same =
    let (v, p) = get_elem?-some a i (omega arith) in
    let (w, q) = get_elem?-some b i (omega arith) in
    rw (matching_step rounds a b i v w p q) (elim (Bool-cases (v == w)) [
      | inl e ↦ rw e (
          matching_from-IsMatch rounds a b (i + 1) (omega arith)
            (rw (add-one, take-suc a i v p, take-suc b i w q, same, (==_iff v w).0 e)))
      | inr e ↦ rw e (record {
        agree = same;
        within_a = omega (arith, get_elem?_lt a i v p);
        within_b = omega (arith, get_elem?_lt b i w q);
        longest = λ x y f g eq. ground (arith, e, p, q, f, g, eq);
      })
    ])

-- `MatchingNibbleLength` returns the length of the longest common prefix: the slices agree up to
-- there, it lies within both, and where both go on they differ.
pub matching_nibble_length-IsMatch : (a b : List ℕ) → IsMatch a b (matching_nibble_length a b)
unfolding matching_nibble_length
matching_nibble_length-IsMatch a b =
    matching_from-IsMatch (min (length a) (length b)) a b 0 (omega arith) refl
