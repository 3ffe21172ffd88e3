-- ===== src/Ethutil/Value/Iterator.antt =====
-- `ValueIterator` of ethutil/value.go.
use eth_go.Common.{
  ℕ, zero, suc, ◌+◌, ◌≤◌, ◌<◌, ◌≡◌, refl, arith, List, [], ◌∷◌, Bool, true, false, leb, leb→le,
  Bool-cases, inl, inr, if◌then◌else◌, Result, ok, out_of_fuel, ◌>>=◌,
}
use native.Mathlib.Numerals.{add-one}
use eth_go.Common.Int.{pos}
use eth_go.Ethutil.Item.{Item, Items, nil_value, slice, nil, cons, length_items}
use eth_go.Ethutil.Value.{len, get, new_value}

pub record ValueIterator : Type 0 where
  pub value : Item
  pub current_value : Item
  pub idx : ℕ

unfoldable pub new_iterator : Item → ValueIterator
new_iterator v = record { value = v; current_value = nil_value; idx = 0 }

-- `Next` moves on and returns whether there was a value.
unfoldable pub next : ValueIterator → Result (Bool × ValueIterator)
next it = do
  n ← len it.value
  if leb n it.idx
      then ok (false, it)
      else ok (true, record it { current_value = get it.value (pos it.idx); idx = it.idx + 1 })

-- `for it.Next() { visit it.Value() }`
unfoldable pub collect : ℕ → ValueIterator → Result (List Item)
collect zero it = out_of_fuel
collect (suc fuel) it = do
  (more, it') ← next it
  let rest = do xs ← collect fuel it'; ok (it'.current_value ∷ xs)
  if more then rest else ok []

abbrev values : Items → List Item
values nil = []
values (cons x xs) = new_value x ∷ values xs

abbrev drop_items : ℕ → Items → Items
drop_items zero xs = xs
drop_items (suc n) nil = nil
drop_items (suc n) (cons x xs) = drop_items n xs

values_at :
    (xs : Items) (i : ℕ)
    → i < length_items xs
    → values (drop_items i xs) ≡ get (slice xs) (pos i) ∷ values (drop_items (suc i) xs)
unfolding get
values_at nil i h = absurd (omega arith)
values_at (cons x nil) zero h = refl
values_at (cons x (cons y xs)) zero h = refl
values_at (cons x xs) (suc i) h = values_at xs i (omega arith)

values_end : (xs : Items) (i : ℕ) → length_items xs ≤ i → values (drop_items i xs) ≡ []
values_end nil zero h = refl
values_end nil (suc i) h = refl
values_end (cons x xs) zero h = absurd (omega arith)
values_end (cons x xs) (suc i) h = values_end xs i (omega arith)

collect_from :
    (fuel : ℕ) (xs : Items) (current : Item) (i : ℕ)
    → length_items xs < fuel + i
    → i ≤ length_items xs
    → collect fuel (record { value = slice xs; current_value = current; idx = i })
      ≡ ok (values (drop_items i xs))
unfolding collect next len
collect_from zero xs current i h le = absurd (omega arith)
collect_from (suc fuel) xs current i h le = elim (Bool-cases (leb (length_items xs) i)) [
  | inl done ↦ rw (done, values_end xs i (leb→le (length_items xs) i done))
  | inr more ↦
      let inside : i < length_items xs = ground arith in
      rw (more, values_at xs i inside, ← add-one i)
        (rw (collect_from fuel xs (get (slice xs) (pos i)) (i + 1) (omega arith) (omega arith)))
]

-- A loop over the iterator of a list visits the items of the list once each, in order, and ends.
pub collect-new_iterator :
    (xs : Items) → collect (length_items xs + 1) (new_iterator (slice xs)) ≡ ok (values xs)
unfolding new_iterator
collect-new_iterator xs =
    collect_from (length_items xs + 1) xs nil_value 0 (omega arith) (omega arith)
