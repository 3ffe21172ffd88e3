-- ===== src/Ethstate/Accounts.antt =====
-- ethstate/state.go: the accounts of a state. The `*StateObject`s are handles into a heap, since the
-- map of the state and its callers share them; the state's own trie is of the same type as theirs.
pub mod Loading
pub mod Snapshots
mod Runs
use eth_go.Common.{
  ℕ, suc, ◌+◌, List, [], ◌∷◌, Bool, ◌==◌, if◌then◌else◌, length, Result, ok, panic, ◌>>=◌, Option,
  none, some, lookup, insert, delete,
}
use eth_go.Common.Int.{ℤ, pos}
use eth_go.Ethutil.Bytes.{address}
use eth_go.Ethstate.Trie.{TrieOps, Store}
use eth_go.Ethstate.Object.{
  StateObject, new_state_object, new_state_object_from_bytes, rlp_encode, copy, sync,
}

-- `codes` is what `Config.Db` has: the codes under their hashes.
pub record State (T : Type 0) : Type 0 where
  pub trie : T
  pub state_objects : List (List ℕ × ℕ)
  pub heap : ℕ → StateObject T
  pub next : ℕ
  pub codes : List (List ℕ × List ℕ)

abbrev pub found_code : Option (List ℕ) → List ℕ
found_code none = []
found_code (some code) = code

abbrev pub store_of : {T : Type 0} → (List ℕ → List ℕ) → State T → Store
store_of sha3 s = record { sha3 = sha3; read = λ k. found_code (lookup s.codes k) }

-- A new object, that the map has under the address.
abbrev pub add_object : {T : Type 0} → State T → List ℕ → StateObject T → State T
add_object s a o = record s {
  state_objects = insert s.state_objects a s.next;
  heap = λ h. if h == s.next then o else s.heap h;
  next = suc s.next;
}

abbrev pub write_object : {T : Type 0} → State T → ℕ → StateObject T → State T
write_object s h o = record s { heap = λ q. if q == h then o else s.heap q }

-- `Copy`: a state of its own, with copies of the objects. No handle to them exists yet.
pub record Snapshot (T : Type 0) : Type 0 where
  pub trie : T
  pub copies : List (List ℕ × StateObject T)

module _ {T : Type 0} where
  unfoldable pub copy_objects :
      TrieOps T → (ℕ → StateObject T) → List (List ℕ × ℕ) → List (List ℕ × StateObject T)
  copy_objects ops heap [] = []
  copy_objects ops heap ((a, h) ∷ m) = (a, copy ops (heap h)) ∷ copy_objects ops heap m

  unfoldable pub copy_state : TrieOps T → State T → Snapshot T
  unfolding copy_objects
  copy_state ops s = record {
    trie = ops.copy s.trie;
    copies = copy_objects ops s.heap s.state_objects;
  }

  unfoldable pub add_copies : State T → List (List ℕ × StateObject T) → State T
  add_copies s [] = s
  add_copies s ((a, o) ∷ m) = add_object (add_copies s m) a o

  -- `Set`: the objects of the snapshot get their handles.
  unfoldable pub set_state : State T → Snapshot T → State T
  unfolding add_copies
  set_state s c = add_copies (record s { trie = c.trie; state_objects = [] }) c.copies

  -- `Empty`
  unfoldable pub empty : State T → State T
  empty s = record s { state_objects = [] }

module _ {T : Type 0} (ops : TrieOps T) (sha3 : List ℕ → List ℕ) where
  unfoldable pub load_object : State T → List ℕ → List ℕ → Result (Option ℕ × State T)
  load_object s a [] = ok (none, s)
  load_object s a (b ∷ bs) = do
    o ← new_state_object_from_bytes ops (store_of sha3 s) a (b ∷ bs)
    ok (some s.next, add_object s a o)

  -- `GetStateObject` behind the look at the map.
  unfoldable pub found_or_load : State T → List ℕ → Option ℕ → Result (Option ℕ × State T)
  unfolding load_object
  found_or_load s a (some h) = ok (some h, s)
  found_or_load s a none = load_object s a (ops.get s.trie a)

  -- `none` is nil. An object that the trie has is loaded into the map.
  unfoldable pub get_state_object : State T → List ℕ → Result (Option ℕ × State T)
  unfolding found_or_load
  get_state_object s addr = let a = address addr in found_or_load s a (lookup s.state_objects a)

  unfoldable pub new_account : State T → List ℕ → ℕ × State T
  new_account s addr = (s.next, add_object s (address addr) (new_state_object ops (address addr)))

  unfoldable pub or_new : Option ℕ → State T → List ℕ → ℕ × State T
  unfolding new_account
  or_new (some h) s addr = (h, s)
  or_new none s addr = new_account s addr

  unfoldable pub get_or_new_state_object : State T → List ℕ → Result (ℕ × State T)
  unfolding or_new
  get_or_new_state_object s addr = do (o, s') ← get_state_object s addr; ok (or_new o s' addr)

  unfoldable pub get_balance : State T → List ℕ → Result (ℤ × State T)
  get_balance s addr = do
    (o, s') ← get_state_object s addr
    ok (elim o [ none ↦ pos 0 | some h ↦ (s'.heap h).balance ], s')

  unfoldable pub get_nonce : State T → List ℕ → Result (ℕ × State T)
  get_nonce s addr = do
    (o, s') ← get_state_object s addr
    ok (elim o [ none ↦ 0 | some h ↦ (s'.heap h).nonce ], s')

  unfoldable pub update_state_object : State T → ℕ → State T
  update_state_object s h =
      let o = s.heap h in
      record s {
        trie = ops.update s.trie o.addr (rlp_encode ops (store_of sha3 s) o);
        codes = insert s.codes (sha3 o.code) o.code;
      }

  unfoldable pub delete_state_object : State T → ℕ → State T
  delete_state_object s h =
      let a = (s.heap h).addr in
      record s { trie = ops.remove s.trie a; state_objects = delete s.state_objects a }

  -- One round of the loop of `Update`.
  unfoldable pub update_object : State T → ℕ → Result (State T)
  unfolding delete_state_object update_state_object
  update_object s h =
      if (s.heap h).remove
      then ok (delete_state_object s h)
      else (do o ← sync ops (s.heap h); ok (update_state_object (write_object s h o) h))

  -- The rounds, in the order of the list; an entry that a round deletes is its own.
  unfoldable pub update_objects : State T → List (List ℕ × ℕ) → Result (State T)
  unfolding update_object
  update_objects s [] = ok s
  update_objects s ((a, h) ∷ m) = do s' ← update_object s h; update_objects s' m

  unfoldable pub update_state : State T → Result (State T)
  unfolding update_objects
  update_state s = do
    s' ← update_objects s s.state_objects
    ok elim (ops.rebuilt s'.trie) [ none ↦ s' | some t ↦ record s' { trie = t } ]

  -- The loops of `Reset` and `Sync` over the objects.
  unfoldable pub each_trie : (StateObject T → StateObject T) → State T → List (List ℕ × ℕ) → State T
  each_trie f s [] = s
  each_trie f s ((a, h) ∷ m) = each_trie f (write_object s h (f (s.heap h))) m

  unfoldable pub reset_object : StateObject T → StateObject T
  reset_object o = record o { storage = []; state = ops.undo o.state }

  unfoldable pub reset_state : State T → State T
  unfolding each_trie reset_object empty
  reset_state s =
      empty (each_trie reset_object (record s { trie = ops.undo s.trie }) s.state_objects)

  unfoldable pub sync_object : StateObject T → StateObject T
  sync_object o = record o { state = ops.sync o.state }

  unfoldable pub sync_state : State T → State T
  unfolding each_trie sync_object empty
  sync_state s =
      let s' = each_trie sync_object s s.state_objects in
      empty (record s' { trie = ops.sync s'.trie })
