-- ===== src/Ethutil/Bytes/Numbers.antt =====
-- The bytes of a number and the number of some bytes are inverse to one another.
use eth_go.Common.{
  ℕ, zero, suc, ◌+◌, ◌*◌, ◌/◌, ◌%◌, ◌^◌, ◌≤◌, ◌<◌, ◌≡◌, refl, sym, ap, ◌∙◌, arith, List, [], ◌∷◌,
  ◌++◌, append_assoc, append-nil, length, length-append, All, All-append,
}
use eth_go.Ethutil.Bytes.{IsByte, bytes_loop, to_bytes, from_bytes_loop, from_bytes}
use native.Mathlib.Nat.{pow-suc, pow-zero}

pub from_bytes_loop-append :
    (acc : ℕ) (xs ys : List ℕ)
    → from_bytes_loop acc (xs ++ ys) ≡ from_bytes_loop (from_bytes_loop acc xs) ys
unfolding from_bytes_loop
from_bytes_loop-append acc [] ys = refl
from_bytes_loop-append acc (x ∷ xs) ys = from_bytes_loop-append (acc * 256 + x) xs ys

-- `p` stands for a power of 256.
widen : (acc x p : ℕ) → (acc * 256 + x) * p ≡ acc * (p * 256) + x * p
widen acc x p = omega arith

widen-le : (acc x p : ℕ) → x < 256 → (acc * 256 + x + 1) * p ≤ (acc + 1) * (p * 256)
widen-le acc x p h = grind arith

-- An accumulator counts for what stands in front.
pub from_bytes_loop_acc :
    (acc : ℕ) (xs : List ℕ) → from_bytes_loop acc xs ≡ acc * 256 ^ length xs + from_bytes_loop 0 xs
unfolding from_bytes_loop
from_bytes_loop_acc acc [] = omega arith
from_bytes_loop_acc acc (x ∷ xs) = omega (
  arith,
  from_bytes_loop_acc (acc * 256 + x) xs,
  from_bytes_loop_acc (0 * 256 + x) xs,
  widen acc x (256 ^ length xs),
  widen 0 x (256 ^ length xs),
  ap (λ (p : ℕ). acc * p) (pow-suc 256 (length xs)),
)

bytes_loop_fuel :
    (f g n : ℕ) (out : List ℕ) → n ≤ f → n ≤ g → bytes_loop f n out ≡ bytes_loop g n out
unfolding bytes_loop
bytes_loop_fuel zero zero n out hf hg = refl
bytes_loop_fuel zero (suc g) zero out hf hg = refl
bytes_loop_fuel zero (suc g) (suc n) out hf hg = absurd (omega arith)
bytes_loop_fuel (suc f) zero zero out hf hg = refl
bytes_loop_fuel (suc f) zero (suc n) out hf hg = absurd (omega arith)
bytes_loop_fuel (suc f) (suc g) zero out hf hg = refl
bytes_loop_fuel (suc f) (suc g) (suc n) out hf hg =
    ground (arith, bytes_loop_fuel f g (suc n / 256) (suc n % 256 ∷ out))

bytes_loop-append :
    (f n : ℕ) (out ys : List ℕ) → bytes_loop f n (out ++ ys) ≡ bytes_loop f n out ++ ys
unfolding bytes_loop
bytes_loop-append zero n out ys = refl
bytes_loop-append (suc f) zero out ys = refl
bytes_loop-append (suc f) (suc n) out ys =
    ground (arith, bytes_loop-append f (suc n / 256) (suc n % 256 ∷ out) ys)

pub to_bytes-zero : to_bytes 0 ≡ []
unfolding to_bytes
to_bytes-zero = refl

-- The last byte of a positive number, and the bytes before it.
pub to_bytes-pos : (n : ℕ) → 0 < n → to_bytes n ≡ to_bytes (n / 256) ++ (n % 256 ∷ [])
unfolding to_bytes
to_bytes-pos zero h = absurd (omega arith)
to_bytes-pos (suc n) h = ground (
  arith,
  bytes_loop_fuel n (suc n / 256) (suc n / 256) (suc n % 256 ∷ []),
  bytes_loop-append (suc n / 256) (suc n / 256) [] (suc n % 256 ∷ []),
)

-- Induction along the bytes of a number.
module _ {ℓ} (P : ℕ → Type ℓ) (base : P 0) (step : (n : ℕ) → 0 < n → P (n / 256) → P n) where
  bytes_induction_below : (k n : ℕ) → n ≤ k → P n
  bytes_induction_below k zero h = base
  bytes_induction_below zero (suc n) h = absurd (omega arith)
  bytes_induction_below (suc k) (suc n) h =
      step (suc n) (omega arith) (bytes_induction_below k (suc n / 256) (omega arith))

  pub bytes_induction : (n : ℕ) → P n
  bytes_induction n = bytes_induction_below n n (omega arith)

-- Reading the bytes of a number gives the number.
pub from_bytes-to_bytes : (n : ℕ) → from_bytes (to_bytes n) ≡ n
from_bytes-to_bytes = bytes_induction _ (unfold from_bytes to_bytes in refl) λ n h ih.
    rw (to_bytes-pos n h) (unfold from_bytes in rw from_bytes_loop-append (omega (arith, ih)))

pub to_bytes-IsByte : (n : ℕ) → All IsByte (to_bytes n)
to_bytes-IsByte =
    bytes_induction _ (rw to_bytes-zero tt)
      λ n h ih. rw (to_bytes-pos n h) (All-append IsByte (to_bytes (n / 256)) _ ih (omega arith))

pub length-to_bytes : (k n : ℕ) → n < 256 ^ k → length (to_bytes n) ≤ k
length-to_bytes k zero h = rw to_bytes-zero (omega arith)
length-to_bytes zero (suc n) h = absurd (omega (arith, pow-zero 256))
length-to_bytes (suc k) (suc n) h = rw (to_bytes-pos (suc n) (omega arith)) (
    omega (
      arith,
      length-append (to_bytes (suc n / 256)) (suc n % 256 ∷ []),
      length-to_bytes k (suc n / 256) (omega (arith, pow-suc 256 k)),
    ))

pub length-to_bytes_pos : (n : ℕ) → 0 < n → 0 < length (to_bytes n)
length-to_bytes_pos n h =
    rw (to_bytes-pos n h) (omega (arith, length-append (to_bytes (n / 256)) (n % 256 ∷ [])))

pub from_bytes_loop-lt :
    (acc : ℕ) (xs : List ℕ) → All IsByte xs → from_bytes_loop acc xs < (acc + 1) * 256 ^ length xs
unfolding from_bytes_loop
from_bytes_loop-lt acc [] h = omega (arith, pow-zero 256)
from_bytes_loop-lt acc (x ∷ xs) (hx, h) =
    rw (pow-suc)
      (omega (arith, from_bytes_loop-lt (acc * 256 + x) xs h, widen-le acc x (256 ^ length xs) hx))

to_bytes-from_bytes_loop :
    (acc : ℕ) (xs : List ℕ)
    → 0 < acc
    → All IsByte xs
    → to_bytes (from_bytes_loop acc xs) ≡ to_bytes acc ++ xs
unfolding from_bytes_loop
to_bytes-from_bytes_loop acc [] h hs = sym (append-nil (to_bytes acc))
to_bytes-from_bytes_loop acc (x ∷ xs) h (hx, hs) =
    to_bytes-from_bytes_loop (acc * 256 + x) xs (omega arith) hs
    ∙ rw (to_bytes-pos (acc * 256 + x) (omega arith)) (rw (quotient, remainder, append_assoc))
  where
    quotient : (acc * 256 + x) / 256 ≡ acc
    quotient = omega arith

    remainder : (acc * 256 + x) % 256 ≡ x
    remainder = omega arith

-- The bytes of a number that is read from bytes with no leading zero are those bytes.
pub to_bytes-from_bytes :
    (b : ℕ) (bs : List ℕ) → 0 < b → All IsByte (b ∷ bs) → to_bytes (from_bytes (b ∷ bs)) ≡ b ∷ bs
unfolding from_bytes
to_bytes-from_bytes b bs h (hb, hbs) =
    rw (zero_front) (to_bytes-from_bytes_loop b bs h hbs ∙ ap (λ l. l ++ bs) one_byte)
  where
    zero_front : 0 * 256 + b ≡ b
    zero_front = omega arith

    one_byte : to_bytes b ≡ b ∷ []
    one_byte = to_bytes-pos b h ∙ rw (quotient, remainder, to_bytes-zero)
      where
        quotient : b / 256 ≡ 0
        quotient = omega arith

        remainder : b % 256 ≡ b
        remainder = omega arith
