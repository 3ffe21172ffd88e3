-- ===== src/Ethchain/Bloom/Laws.antt =====
-- An address that has been set is found, whatever is set later.
use eth_go.Common.{
  ℕ, zero, suc, ◌≤◌, ◌<◌, ◌≡◌, refl, sym, subst, ap, ◌∙◌, arith, List, [], ◌∷◌, Bool, true, false,
  ltb, ltb→lt, ◌==◌, if◌then◌else◌, length, set as set_at, get_elem?, Result, ok, panic, ◌>>=◌,
  index, or_panic, Option, none, some, first_step, All, Bool-cases, ◌⊎◌, inl, inr,
}
use eth_go.Ethchain.Bloom.{BloomFilter, last_eight, mark_all, set, all_marked, search_for}

-- A byte that is there and not 0.
abbrev IsMarked : List ℕ → ℕ → Type 0
IsMarked bin i = (v : ℕ) × (get_elem? bin i ≡ some (suc v))

IsMarked-set_at : (bin : List ℕ) (i j : ℕ) → IsMarked bin j → IsMarked (set_at bin i 1) j
IsMarked-set_at [] i j h = h
IsMarked-set_at (b ∷ bin) zero zero h = (0, refl)
IsMarked-set_at (b ∷ bin) zero (suc j) h = h
IsMarked-set_at (b ∷ bin) (suc i) zero h = h
IsMarked-set_at (b ∷ bin) (suc i) (suc j) h = IsMarked-set_at bin i j h

set_at-IsMarked : (bin : List ℕ) (i : ℕ) → i < length bin → IsMarked (set_at bin i 1) i
set_at-IsMarked [] i h = absurd (omega arith)
set_at-IsMarked (b ∷ bin) zero h = (0, refl)
set_at-IsMarked (b ∷ bin) (suc i) h = set_at-IsMarked bin i (omega arith)

ok_injective : {A : Type 0} {a b : A} → ok a ≡ ok b → a ≡ b
ok_injective h = cc

or_panic-ok : {A : Type 0} (o : Option A) (a : A) → or_panic o ≡ ok a → o ≡ some a
or_panic-ok none a h = absurd (cc)
or_panic-ok (some b) a h = ap some (ok_injective h)

-- A test that does not panic has been passed.
if_ok :
    {A : Type 0} (b : Bool) (r : Result A) (a : A)
    → (if b then r else panic) ≡ ok a
    → (b ≡ true) × (r ≡ ok a)
if_ok true r a h = (refl, h)
if_ok false r a h = absurd (cc)

mark_all-keeps :
    (bin : List ℕ) (is : List ℕ) (bin' : List ℕ) (j : ℕ)
    → mark_all bin is ≡ ok bin'
    → IsMarked bin j
    → IsMarked bin' j
unfolding mark_all
mark_all-keeps bin [] bin' j h k = subst (λ x. IsMarked x j) (ok_injective h) k
mark_all-keeps bin (i ∷ rest) bin' j h k =
    let (inside, h1) = if_ok (ltb i (length bin)) _ bin' h in
    mark_all-keeps (set_at bin i 1) rest bin' j h1 (IsMarked-set_at bin i j k)

mark_all-marks :
    (bin : List ℕ) (is : List ℕ) (bin' : List ℕ)
    → mark_all bin is ≡ ok bin'
    → All (IsMarked bin') is
unfolding mark_all
mark_all-marks bin [] bin' h = tt
mark_all-marks bin (i ∷ rest) bin' h =
    let (inside, h1) = if_ok (ltb i (length bin)) _ bin' h in
    (
      mark_all-keeps (set_at bin i 1) rest bin' i h1
          (set_at-IsMarked bin i (ltb→lt i (length bin) inside)),
      mark_all-marks (set_at bin i 1) rest bin' h1,
    )

all_marked-found : (bin is : List ℕ) → All (IsMarked bin) is → all_marked bin is ≡ ok true
unfolding all_marked
all_marked-found bin [] h = refl
all_marked-found bin (i ∷ rest) ((v, e), h) = rw (e, all_marked-found bin rest h) (ground arith)

found-all_marked : (bin is : List ℕ) → all_marked bin is ≡ ok true → All (IsMarked bin) is
unfolding all_marked
found-all_marked bin [] h = tt
found-all_marked bin (i ∷ rest) h =
    let (b, e, h1) = first_step (index bin i) _ true h in
    marked_first b (or_panic-ok (get_elem? bin i) b e) h1 (found-all_marked bin rest)
  where
    marked_first :
        (b : ℕ)
        → get_elem? bin i ≡ some b
        → (if b == 0 then ok false else all_marked bin rest) ≡ ok true
        → (all_marked bin rest ≡ ok true → All (IsMarked bin) rest)
        → All (IsMarked bin) (i ∷ rest)
    marked_first zero e h k = absurd (ground arith)
    marked_first (suc v) e h k = ((v, e), k (ground arith))

-- What a set does to the bin.
set_bins :
    (a : List ℕ) (f f' : BloomFilter)
    → set a f ≡ ok f'
    → ((length a < 8) × (f ≡ f')) ⊎ (mark_all f.bin (last_eight a) ≡ ok f'.bin)
unfolding set
set_bins a f f' h = elim (Bool-cases (ltb (length a) 8)) [
  | inl e ↦ inl (ltb→lt (length a) 8 e, ok_injective (sym (short_set a f e) ∙ h))
  | inr e ↦
      let (bin, e1, h1) =
        first_step (mark_all f.bin (last_eight a)) _ f' (sym (long_set a f e) ∙ h) in
      inr (e1 ∙ ap (λ x. ok x.bin) (ok_injective h1))
]
  where
    short_set : (a : List ℕ) (f : BloomFilter) → ltb (length a) 8 ≡ true → set a f ≡ ok f
    short_set a f e = rw e refl

    long_set :
        (a : List ℕ) (f : BloomFilter)
        → ltb (length a) 8 ≡ false
        → set a f ≡ (mark_all f.bin (last_eight a) >>= λ bin. ok (record { bin = bin }))
    long_set a f e = rw e refl

search_long :
    (a : List ℕ) (f : BloomFilter) → 8 ≤ length a → search_for a f ≡ all_marked f.bin (last_eight a)
unfolding search_for
search_long a f h = ground arith

found_long : (b : List ℕ) (f : BloomFilter) → search_for b f ≡ ok true → 8 ≤ length b
unfolding search_for
found_long b f h = ground arith

All-map : {P Q : ℕ → Type 0} (xs : List ℕ) → ((x : ℕ) → P x → Q x) → All P xs → All Q xs
All-map [] f h = tt
All-map (x ∷ xs) f (h, k) = (f x h, All-map xs f k)

-- After Set with an address returns, Search finds that address if it has at least eight bytes, and
-- still finds every address that it found before.
pub set-search_for :
    (a b : List ℕ) (f f' : BloomFilter)
    → set a f ≡ ok f'
    → (8 ≤ length a → search_for a f' ≡ ok true)
      × (search_for b f ≡ ok true → search_for b f' ≡ ok true)
set-search_for a b f f' h = elim (set_bins a f f' h) [
  | inl (short, same) ↦
      (λ long. absurd (omega arith), λ found. subst (λ x. search_for b x ≡ ok true) same found)
  | inr marked ↦ (
    λ long.
        search_long a f' long
        ∙ all_marked-found f'.bin (last_eight a)
            (mark_all-marks f.bin (last_eight a) f'.bin marked),
    λ found.
        let long = found_long b f found in
        let before = found-all_marked f.bin (last_eight b) (sym (search_long b f long) ∙ found) in
        search_long b f' long
        ∙ all_marked-found f'.bin (last_eight b) (
            All-map (last_eight b) (λ j k. mark_all-keeps f.bin (last_eight a) f'.bin j marked k)
              before),
  )
]
