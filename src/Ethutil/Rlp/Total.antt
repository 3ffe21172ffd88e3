-- ===== src/Ethutil/Rlp/Total.antt =====
-- `Decode` ends on every input, and moves forward: a value takes a byte at least and stays within
-- the capacity of the data.
use eth_go.Common.{
  ℕ, zero, suc, ◌+◌, ◌-◌, ◌*◌, ◌^◌, ◌≤◌, ◌<◌, subst, arith, List, ◌++◌, ltb, length, length-append,
  Result, ok, panic, out_of_fuel, ◌>>=◌, slice as slice_of, get_elem?, get_elem?_lt, Bool-cases,
  Option-cases, inl, inr,
}
use eth_go.Ethutil.Rlp.{
  add64, sub64, Loop, decode_short, decode_length, decode_long, decode_list, decode_long_list,
  byte_within, decode_char, decode_fuel, decode_loop, decode,
}

-- The result is a panic, or a position from `lo` to `hi`; in particular the run had enough fuel.
abbrev pub Advances {ℓ} : {A : Type ℓ} → ℕ → ℕ → Result (A × ℕ) → Type 0
Advances lo hi (ok (a, p)) = (lo ≤ p) × (p ≤ hi)
Advances lo hi panic = Unit
Advances lo hi out_of_fuel = ⊥

Advances-bind {ℓ κ} :
    {A : Type ℓ} {B : Type κ} (lo hi lo' : ℕ) (m : Result (A × ℕ)) (k : A × ℕ → Result (B × ℕ))
    → Advances lo hi m
    → ((a : A) (p : ℕ) → lo ≤ p → p ≤ hi → Advances lo' hi (k (a, p)))
    → Advances lo' hi (m >>= k)
Advances-bind lo hi lo' (ok (a, p)) k (hl, hh) f = f a p hl hh
Advances-bind lo hi lo' panic k h f = tt
Advances-bind lo hi lo' out_of_fuel k h f = absurd h

abbrev pub Fits : List ℕ → Type 0
Fits data' = length data' < 2 ^ 63

module _ (data' : List ℕ) (fits : Fits data') (pos : ℕ) (inside : pos < length data') where
  decode_short-Advances : (b : ℕ) → Advances (pos + 1) (length data') (decode_short data' pos b)
  unfolding decode_short slice_of
  decode_short-Advances b = ground arith

  decode_length-Advances : (l : ℕ) → Advances (pos + 1) (length data') (decode_length data' pos l)
  unfolding decode_length slice_of
  decode_length-Advances l = ground arith

  decode_long-Advances : (b : ℕ) → Advances (pos + 1) (length data') (decode_long data' pos b)
  unfolding decode_long slice_of
  decode_long-Advances b = ground (arith, decode_length-Advances b)

  module _ (loop : Loop)
      (step : (q i b : ℕ)
        → pos < q
        → q ≤ length data'
        → Advances q (length data') (loop q i b)) where
    decode_list-Advances : (b : ℕ) → Advances (pos + 1) (length data') (decode_list loop pos b)
    unfolding decode_list
    decode_list-Advances b = ground (arith, step (add64 pos 1) 0 b)

    decode_long_list-Advances :
        (l : ℕ) → Advances (pos + 1) (length data') (decode_long_list loop data' pos l)
    unfolding decode_long_list
    decode_long_list-Advances l =
        Advances-bind (pos + 1) _ _ (decode_length data' pos l) _ (decode_length-Advances l)
          λ b p hl hh. ground (arith, step p 0 b)

    decode_char-Advances :
        (char : ℕ) → Advances (pos + 1) (length data') (decode_char loop data' pos char)
    unfolding decode_char
    decode_char-Advances char = ground (
      arith,
      decode_short-Advances (char - 0x80),
      decode_long-Advances (char - 0xb7),
      decode_list-Advances (char - 0xc0),
      decode_long_list-Advances (char - 0xf7),
    )

mutual
  unfolding decode_fuel byte_within

  decode_fuel-Advances :
      (fuel : ℕ) (whole : List ℕ) (n pos : ℕ)
      → Fits whole
      → 2 * (length whole - pos) < fuel
      → Advances (pos + 1) (length whole) (decode_fuel fuel whole n pos)
  decode_fuel-Advances zero whole n pos fits h = absurd (omega arith)
  decode_fuel-Advances (suc fuel) whole n pos fits h = elim (Bool-cases (ltb pos n)) [
    | inl inside ↦ elim (Option-cases (get_elem? whole pos)) [
      | inl e ↦ rw (inside, e) tt
      | inr (char, e) ↦
          rw (inside, e)
            (decode_char-Advances whole fits pos (get_elem?_lt whole pos char e)
              (decode_loop fuel whole n)
              (λ q i b hq hh.
                decode_loop-Advances fuel whole n q i b fits
                  (omega (arith, get_elem?_lt whole pos char e)) hh)
              char)
    ]
    | inr outside ↦ rw outside tt
  ]

  decode_loop-Advances :
      (fuel : ℕ) (whole : List ℕ) (n pos i b : ℕ)
      → Fits whole
      → 2 * (length whole - pos) + 1 < fuel
      → pos ≤ length whole
      → Advances pos (length whole) (decode_loop fuel whole n pos i b)
  decode_loop-Advances zero whole n pos i b fits h le = absurd (omega arith)
  decode_loop-Advances (suc fuel) whole n pos i b fits h le = elim (Bool-cases (ltb i b)) [
    | inl more ↦ rw more (
        Advances-bind (pos + 1) _ _ (decode_fuel fuel whole n pos) _
          (decode_fuel-Advances fuel whole n pos fits (omega arith))
          λ obj p hl hh.
            Advances-bind p _ _ (decode_loop fuel whole n p (add64 i (sub64 p pos)) b) _
              (decode_loop-Advances fuel whole n p (add64 i (sub64 p pos)) b fits (omega arith) hh)
              λ xs q hq hqh. (omega arith, hqh))
    | inr done ↦ rw done (omega arith)
  ]

-- Whatever the data and what stands behind it within its capacity, as long as Go can hold both, and
-- whatever the position, `Decode` ends: it panics, or returns a value and a later position, which is
-- at most the capacity.
pub decode-Advances :
    (spare data' : List ℕ) (pos : ℕ)
    → Fits (data' ++ spare)
    → Advances (pos + 1) (length data' + length spare) (decode spare data' pos)
unfolding decode
decode-Advances spare data' pos fits =
    let fuel = 2 * (length data' + length spare) + 2 in
    subst (λ hi. Advances (pos + 1) hi (decode_fuel fuel (data' ++ spare) (length data') pos))
      (length-append data' spare)
      (decode_fuel-Advances fuel (data' ++ spare) (length data') pos fits
        (omega (arith, length-append data' spare)))
