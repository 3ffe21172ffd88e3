-- ===== src/Common/Maps.antt =====
-- A Go map from strings, as a list of keys and values without order.
use Prim.Native.Nat.{ℕ}
use mathlib.Core.Path.{◌≡◌, refl}
use mathlib.Core.Bool.{Bool, true, false}
use mathlib.Core.List.{List, [], ◌∷◌}
use mathlib.Core.Option.{Option, none, some}
use native.Mathlib.Omega.{arith}
use eth_go.Common.Tests.{◌==◌, if◌then◌else◌}

-- `bytes.Compare(a, b) == 0`
unfoldable pub same_bytes : List ℕ → List ℕ → Bool
same_bytes [] [] = true
same_bytes [] (y ∷ ys) = false
same_bytes (x ∷ xs) [] = false
same_bytes (x ∷ xs) (y ∷ ys) = let rest = same_bytes xs ys in if x == y then rest else false

pub same_bytes_refl : (a : List ℕ) → same_bytes a a ≡ true
unfolding same_bytes
same_bytes_refl [] = refl
same_bytes_refl (x ∷ xs) = ground (arith, same_bytes_refl xs)

pub same_bytes-eq : (a b : List ℕ) → same_bytes a b ≡ true → a ≡ b
unfolding same_bytes
same_bytes-eq [] [] h = refl
same_bytes-eq [] (y ∷ ys) h = absurd (cc)
same_bytes-eq (x ∷ xs) [] h = absurd (cc)
same_bytes-eq (x ∷ xs) (y ∷ ys) h = ground (arith, same_bytes-eq xs ys)

same_bytes_join :
    (a b c : List ℕ) → same_bytes a c ≡ true → same_bytes b c ≡ true → same_bytes a b ≡ true
same_bytes_join a b c h k =
    ground (arith, same_bytes-eq a c h, same_bytes-eq b c k, same_bytes_refl a)

module _ {ℓ} {V : Type ℓ} where
  unfoldable pub lookup : List (List ℕ × V) → List ℕ → Option V
  lookup [] k = none
  lookup ((j, v) ∷ m) k = let rest = lookup m k in if same_bytes j k then some v else rest

  -- `m[k] = v`
  unfoldable pub insert : List (List ℕ × V) → List ℕ → V → List (List ℕ × V)
  insert [] k v = (k, v) ∷ []
  insert ((j, w) ∷ m) k v =
      let rest = insert m k v in if same_bytes j k then (k, v) ∷ m else (j, w) ∷ rest

  -- `delete(m, k)`
  unfoldable pub delete : List (List ℕ × V) → List ℕ → List (List ℕ × V)
  delete [] k = []
  delete ((j, w) ∷ m) k = let rest = delete m k in if same_bytes j k then rest else (j, w) ∷ rest

module _ {ℓ} {V : Type ℓ} where
  pub lookup-insert :
      (m : List (List ℕ × V)) (k : List ℕ) (v : V) (q : List ℕ)
      → lookup (insert m k v) q ≡ (if same_bytes k q then some v else lookup m q)
  unfolding lookup insert
  lookup-insert [] k v q = refl
  lookup-insert ((j, w) ∷ m) k v q =
      ground
        (arith, lookup-insert m k v q, same_bytes-eq j k, same_bytes_refl k, same_bytes_join j k q)

  pub lookup-delete :
      (m : List (List ℕ × V)) (k q : List ℕ)
      → lookup (delete m k) q ≡ (if same_bytes k q then none else lookup m q)
  unfolding lookup delete
  lookup-delete [] k q = ground arith
  lookup-delete ((j, w) ∷ m) k q =
      ground
        (arith, lookup-delete m k q, same_bytes-eq j k, same_bytes_refl k, same_bytes_join j k q)

  pub lookup-insert_same :
      (m : List (List ℕ × V)) (k : List ℕ) (v : V) → lookup (insert m k v) k ≡ some v
  lookup-insert_same m k v = rw (lookup-insert m k v k, same_bytes_refl k) refl
