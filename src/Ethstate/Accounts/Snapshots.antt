-- ===== src/Ethstate/Accounts/Snapshots.antt =====
-- A state set back to a snapshot.
use eth_go.Common.{
  ℕ, ◌≤◌, ◌<◌, ◌≡◌, refl, sym, ◌∙◌, arith, List, [], ◌∷◌, Bool, true, false, ◌==◌, if◌then◌else◌,
  Bool-cases, inl, inr, some, lookup, lookup-insert, same_bytes,
}
use eth_go.Ethutil.Bytes.{address}
use eth_go.Ethstate.Trie.{TrieOps}
use eth_go.Ethstate.Object.{StateObject, copy}
use eth_go.Ethstate.Accounts.{State, add_object, copy_objects, copy_state, add_copies, set_state}

if_other : {A : Type 0} (b : Bool) (x y : A) → b ≡ false → (if b then x else y) ≡ y
if_other b x y e = rw e refl

-- Handles are given out upwards, and the objects behind older ones stay.
add_copies_keeps :
    {T : Type 0} (s : State T) (m : List (List ℕ × StateObject T))
    → (s.next ≤ (add_copies s m).next)
      × ((q : ℕ) → q < s.next → (add_copies s m).heap q ≡ s.heap q)
      × ((add_copies s m).trie ≡ s.trie)
unfolding add_copies
add_copies_keeps s [] = (omega arith, λ q h. refl, refl)
add_copies_keeps s ((a, o) ∷ m) =
    let (up, same, trie) = add_copies_keeps s m in
    (omega arith, λ q h. if_other (q == (add_copies s m).next) _ _ (ground arith) ∙ same q h, trie)

-- The copy of an object that `m` has is at a handle of its own.
abbrev HasCopy : {T : Type 0} → State T → ℕ → List ℕ → StateObject T → Type 0
HasCopy w from a o =
    (h : ℕ) × (lookup w.state_objects a ≡ some h) × (w.heap h ≡ o) × (from ≤ h) × (h < w.next)

if_same : {A : Type 0} (b : Bool) (x y : A) → b ≡ true → (if b then x else y) ≡ x
if_same b x y e = rw e refl

added-HasCopy :
    {T : Type 0} (s : State T) (from : ℕ) (a b : List ℕ) (x : StateObject T)
    → from ≤ s.next
    → same_bytes b a ≡ true
    → HasCopy (add_object s b x) from a x
added-HasCopy s from a b x le e = (
  s.next,
  lookup-insert s.state_objects b s.next a ∙ if_same (same_bytes b a) _ _ e,
  if_same (s.next == s.next) _ _ (ground arith),
  le,
  omega arith,
)

kept-HasCopy :
    {T : Type 0} (s : State T) (from : ℕ) (a b : List ℕ) (x o : StateObject T)
    → same_bytes b a ≡ false
    → HasCopy s from a o
    → HasCopy (add_object s b x) from a o
kept-HasCopy s from a b x o e (h, found, same, le, lt) = (
  h,
  lookup-insert s.state_objects b s.next a ∙ (if_other (same_bytes b a) _ _ e ∙ found),
  if_other (h == s.next) _ _ (ground arith) ∙ same,
  le,
  omega arith,
)

add_copies-HasCopy :
    {T : Type 0} (ops : TrieOps T) (s : State T) (heap : ℕ → StateObject T) (m : List (List ℕ × ℕ))
    (a : List ℕ) (h : ℕ)
    → lookup m a ≡ some h
    → HasCopy (add_copies s (copy_objects ops heap m)) s.next a (copy ops (heap h))
unfolding add_copies copy_objects lookup
add_copies-HasCopy ops s heap [] a h e = absurd (cc)
add_copies-HasCopy ops s heap ((k, q) ∷ m) a h e =
    let rest = add_copies s (copy_objects ops heap m) in
    elim (Bool-cases (same_bytes k a)) [
      | inl f ↦
          (let same : q ≡ h = ground (arith, f, e) in
            rw (sym same) (
              added-HasCopy rest s.next a k (copy ops (heap q))
                (add_copies_keeps s (copy_objects ops heap m)).0 f))
      | inr f ↦
          kept-HasCopy rest s.next a k (copy ops (heap q)) (copy ops (heap h)) f
            (add_copies-HasCopy ops s heap m a h (ground (arith, f, e)))
    ]

pub set_state_trie :
    {T : Type 0} (ops : TrieOps T) (s now : State T)
    → (set_state now (copy_state ops s)).trie ≡ ops.copy s.trie
unfolding set_state copy_state
set_state_trie ops s now =
    (add_copies_keeps (record now { trie = ops.copy s.trie; state_objects = [] })
      (copy_objects ops s.heap s.state_objects)).2

-- A state that is set back to a snapshot has the copy of the trie as it was at the time of the snapshot,
-- and, under each address that it had one for, a copy of the object as it was then: the same object,
-- with its address in twenty bytes, and with a copy of its trie, but for the mark for deletion, which
-- the copy has lost. The copy is at a new handle, so that whoever still holds an older one writes to an
-- object that the state has no more, and every older object is as it was.
pub set_state-copy_state :
    {T : Type 0} (ops : TrieOps T) (s now : State T) (a : List ℕ) (h : ℕ)
    → lookup s.state_objects a ≡ some h
    → let w = set_state now (copy_state ops s) in
      ((h' : ℕ) × (lookup w.state_objects a ≡ some h')
        × (w.heap h' ≡ record (s.heap h) {
          addr = address (s.heap h).addr;
          state = ops.copy (s.heap h).state;
          remove = false;
        })
        × (now.next ≤ h')
        × (h' < w.next))
      × ((q : ℕ) → q < now.next → w.heap q ≡ now.heap q)
      × (w.trie ≡ ops.copy s.trie)
unfolding set_state copy_state copy
set_state-copy_state ops s now a h e =
    let from = record now { trie = ops.copy s.trie; state_objects = [] } in
    let m = copy_objects ops s.heap s.state_objects in
    (
      add_copies-HasCopy ops from s.heap s.state_objects a h e,
      (add_copies_keeps from m).1,
      (add_copies_keeps from m).2,
    )
