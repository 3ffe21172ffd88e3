-- ===== src/Common/Outcome.antt =====
-- What a Go function does: it returns, or it panics (an index or a slice bound out of range, an
-- explicit `panic`). `out_of_fuel` is no Go behaviour: a recursion of the model was cut off.
use Prim.Native.Nat.{ℕ, ◌-◌, ◌≤◌, ◌+◌}
use mathlib.Core.Path.{◌≡◌, refl}
use mathlib.Core.Logic.{◌⊎◌, inl, inr}
use mathlib.Core.Bool.{◌&&◌}
use mathlib.Core.List.{List, ◌++◌}
use mathlib.Core.Option.{Option, none, some}
use native.Mathlib.Omega.{arith}
use eth_go.Common.Tests.{leb, if◌then◌else◌}
use eth_go.Common.Lists.{
  length, take, drop, get_elem?, take-append, drop-append, length-append, length-take, length-drop,
}

pub data Result {ℓ} (A : Type ℓ) : Type ℓ where
  ok : A → Result A
  panic out_of_fuel : Result A

infixl 5 ◌>>=◌
abbrev pub ◌>>=◌ {ℓ κ} : {A : Type ℓ} {B : Type κ} → Result A → (A → Result B) → Result B
ok a >>= f = f a
panic >>= f = panic
out_of_fuel >>= f = out_of_fuel

abbrev pub or_panic {ℓ} : {A : Type ℓ} → Option A → Result A
or_panic none = panic
or_panic (some a) = ok a

-- xs[i]
abbrev pub index {ℓ} : {A : Type ℓ} → List A → ℕ → Result A
index xs i = or_panic (get_elem? xs i)

-- xs[from:to], of a slice whose capacity is its length.
unfoldable pub slice {ℓ} : {A : Type ℓ} → List A → ℕ → ℕ → Result (List A)
slice xs from to =
    if leb from to && leb to (length xs) then ok (take (to - from) (drop from xs)) else panic

-- A slice within bounds, of a list that is given in three parts.
pub slice-append :
    {A : Type 0} (xs ys zs : List A) (from to : ℕ)
    → from ≡ length xs
    → to ≡ length xs + length ys
    → slice (xs ++ (ys ++ zs)) from to ≡ ok ys
unfolding slice
slice-append xs ys zs from to hf ht = ground (
  arith,
  length-append xs (ys ++ zs),
  length-append ys zs,
  drop-append xs (ys ++ zs) from,
  take-append ys zs (to - from),
)

-- What a slice that does not panic says about its bounds.
pub slice-eq-ok :
    {A : Type 0} (xs : List A) (from to : ℕ) {ys : List A}
    → slice xs from to ≡ ok ys
    → (from ≤ to) × (to ≤ length xs) × (length ys ≡ to - from)
unfolding slice
slice-eq-ok xs from to h =
    ground (arith, length-take (to - from) (drop from xs), length-drop from xs)

pub Result-cases {ℓ} :
    {A : Type ℓ} (r : Result A) → ((a : A) × (r ≡ ok a)) ⊎ ((r ≡ panic) ⊎ (r ≡ out_of_fuel))
Result-cases (ok a) = inl (a, refl)
Result-cases panic = inr (inl refl)
Result-cases out_of_fuel = inr (inr refl)

-- What a `do` block that returns says of its first step.
pub first_step :
    {A B : Type 0} (r : Result A) (f : A → Result B) (b : B)
    → (r >>= f) ≡ ok b
    → (a : A) × (r ≡ ok a) × (f a ≡ ok b)
first_step (ok a) f b h = (a, refl, h)
first_step panic f b h = absurd (cc)
first_step out_of_fuel f b h = absurd (cc)

-- What holds of a result, if there is one.
pub data Yields {A : Type 0} (P : A → Type 0) : Result A → Type 0 where
  yields : (a : A) → P a → Yields P (ok a)
  panics_instead : Yields P panic
  cut_instead : Yields P out_of_fuel

pub Yields-bind :
    {A B : Type 0} (Q : B → Type 0) (r : Result A) (f : A → Result B)
    → ((a : A) → r ≡ ok a → Yields Q (f a))
    → Yields Q (r >>= f)
Yields-bind Q (ok a) f h = h a refl
Yields-bind Q panic f h = panics_instead
Yields-bind Q out_of_fuel f h = cut_instead

pub Yields-ok : {A : Type 0} (P : A → Type 0) (a : A) → Yields P (ok a) → P a
Yields-ok P a (yields _ h) = h
