-- ===== src/Ethstate/Accounts/Loading.antt =====
-- Accounts found, made and loaded from the trie.
use eth_go.Common.{
  ℕ, ◌≡◌, refl, sym, ap, ◌⊎◌, inl, inr, List, [], ◌∷◌, Result, ok, panic, out_of_fuel, ◌>>=◌,
  Option, none, some, lookup, lookup-insert, same_bytes_refl,
}
use eth_go.Ethutil.Bytes.{address}
use eth_go.Ethstate.Trie.{TrieOps}
use eth_go.Ethstate.Object.{StateObject, new_state_object}
use eth_go.Ethstate.Accounts.{
  State, add_object, load_object, found_or_load, get_state_object, new_account, or_new,
  get_or_new_state_object,
}

lookup_added :
    {T : Type 0} (s : State T) (a : List ℕ) (o : StateObject T)
    → lookup (add_object s a o).state_objects a ≡ some s.next
lookup_added s a o = rw (lookup-insert s.state_objects a s.next a, same_bytes_refl a) refl

abbrev load_result :
    {T : Type 0} → State T → List ℕ → Result (StateObject T) → Result (Option ℕ × State T)
load_result s a r = do o ← r; ok (some s.next, add_object s a o)

load_result_cases :
    {T : Type 0} (s s' : State T) (a : List ℕ) (r : Result (StateObject T)) (o : Option ℕ)
    → load_result s a r ≡ ok (o, s')
    → (x : StateObject T) × (o ≡ some s.next) × (s' ≡ add_object s a x)
load_result_cases s s' a (ok x) o h = (x, cc, cc)
load_result_cases s s' a panic o h = absurd (cc)
load_result_cases s s' a out_of_fuel o h = absurd (cc)

abbrev new_result :
    {T : Type 0}
    → (Option ℕ → State T → ℕ × State T)
    → Result (Option ℕ × State T)
    → Result (ℕ × State T)
new_result f r = do (o, s) ← r; ok (f o s)

new_result_cases :
    {T : Type 0} (f : Option ℕ → State T → ℕ × State T) (r : Result (Option ℕ × State T)) (h : ℕ)
    (s' : State T)
    → new_result f r ≡ ok (h, s')
    → (o : Option ℕ) × (s : State T) × (r ≡ ok (o, s)) × (f o s ≡ (h, s'))
new_result_cases f (ok (o, s)) h s' e = (o, s, refl, cc)
new_result_cases f panic h s' e = absurd (cc)
new_result_cases f out_of_fuel h s' e = absurd (cc)

module _ {T : Type 0} (ops : TrieOps T) (sha3 : List ℕ → List ℕ) where
  load_object_cases :
      (s s' : State T) (a bytes : List ℕ) (o : Option ℕ)
      → load_object ops sha3 s a bytes ≡ ok (o, s')
      → (o ≡ none) ⊎ ((h : ℕ) × (o ≡ some h) × (lookup s'.state_objects a ≡ some h))
  unfolding load_object
  load_object_cases s s' a [] o h = inl (cc)
  load_object_cases s s' a (b ∷ bs) o h =
      let (x, found, same) = load_result_cases s s' a _ o h in
      inr (s.next, found, rw same (lookup_added s a x))

  found_or_load_cases :
      (s s' : State T) (a : List ℕ) (c o : Option ℕ)
      → lookup s.state_objects a ≡ c
      → found_or_load ops sha3 s a c ≡ ok (o, s')
      → (o ≡ none) ⊎ ((h : ℕ) × (o ≡ some h) × (lookup s'.state_objects a ≡ some h))
  unfolding found_or_load
  found_or_load_cases s s' a none o e h = load_object_cases s s' a _ o h
  found_or_load_cases s s' a (some q) o e h = let same : s ≡ s' = cc in inr (q, cc, rw (sym same) e)

  pub get_state_object_found :
      (s : State T) (addr : List ℕ) (h : ℕ)
      → lookup s.state_objects (address addr) ≡ some h
      → get_state_object ops sha3 s addr ≡ ok (some h, s)
  unfolding get_state_object found_or_load
  get_state_object_found s addr h e = ap (found_or_load ops sha3 s (address addr)) e

  pub get_or_new_found :
      (s : State T) (addr : List ℕ) (h : ℕ)
      → lookup s.state_objects (address addr) ≡ some h
      → get_or_new_state_object ops sha3 s addr ≡ ok (h, s)
  unfolding get_or_new_state_object or_new
  get_or_new_found s addr h e =
      ap (new_result λ o q. or_new ops sha3 o q addr) (get_state_object_found s addr h e)

  or_new_maps :
      (o : Option ℕ) (s s' : State T) (a : List ℕ) (h : ℕ)
      → (o ≡ none) ⊎ ((q : ℕ) × (o ≡ some q) × (lookup s.state_objects (address a) ≡ some q))
      → or_new ops sha3 o s a ≡ (h, s')
      → lookup s'.state_objects (address a) ≡ some h
  unfolding or_new new_account
  or_new_maps none s s' a h k e =
      let same : add_object s (address a) (new_state_object ops (address a)) ≡ s' = cc in
      let handle : s.next ≡ h = cc in
      rw (sym same, sym handle) (lookup_added s (address a) (new_state_object ops (address a)))
  or_new_maps (some q) s s' a h k e =
      let same : s ≡ s' = cc in
      let handle : q ≡ h = cc in
      elim k [ inl f ↦ absurd (cc) | inr (p, f, m) ↦ rw (sym same, m) (cc) ]

  get_or_new_maps :
      (s s' : State T) (a : List ℕ) (h : ℕ)
      → get_or_new_state_object ops sha3 s a ≡ ok (h, s')
      → lookup s'.state_objects (address a) ≡ some h
  unfolding get_or_new_state_object get_state_object or_new new_account
  get_or_new_maps s s' a h e =
      let (o, s1, got, new) =
        new_result_cases (λ o q. or_new ops sha3 o q a) (get_state_object ops sha3 s a) h s' e in
      or_new_maps o s1 s' a h (found_or_load_cases s s1 (address a) _ o refl got) new

  -- An account that was found or made is found again, under any spelling of its address.
  pub get_or_new_stable :
      (s s' : State T) (a b : List ℕ) (h : ℕ)
      → address b ≡ address a
      → get_or_new_state_object ops sha3 s a ≡ ok (h, s')
      → get_or_new_state_object ops sha3 s' b ≡ ok (h, s')
  get_or_new_stable s s' a b h same e =
      get_or_new_found s' b h (rw same (get_or_new_maps s s' a h e))
