-- ===== src/Ethtrie/Cache/Laws.antt =====
-- What the cache keeps: a node that is put is found, an undo forgets it, a commit makes it last.
use eth_go.Common.{
  ℕ, ◌≡◌, refl, sym, ap, ◌∙◌, arith, inl, inr, List, [], ◌∷◌, Bool, true, false, leb, ◌||◌,
  if◌then◌else◌, Bool-cases, length, Result, ok, panic, out_of_fuel, ◌>>=◌, none, some, lookup,
  insert, lookup-insert, lookup-insert_same,
}
use eth_go.Ethutil.Item.{Item, bytes}
use eth_go.Ethutil.Rlp.{encode}
use eth_go.Ethutil.Rlp.Total.{Fits}
use eth_go.Ethutil.Rlp.RoundTrip.{decoded, IsEncodable}
use eth_go.Ethutil.Value.{new_value, encode_value, new_value_from_bytes}
use eth_go.Ethutil.Value.Reads.{new_value_from_bytes-encode}
use eth_go.Ethtrie.Cache.{
  Cache, Node, new_cache, put_value, get, get_cached, db_get, commit, commit_nodes, drop_dirty,
  undo,
}

pub get_found :
    (c : Cache) (key : List ℕ) (n : Node)
    → lookup c.nodes key ≡ some n
    → get c key ≡ ok (n.value, c)
unfolding get get_cached
get_found c key n e = ap (get_cached c key) e

-- What a read returns, without the cache that it may have filled.
abbrev pub value_read : Result (Item × Cache) → Result Item
value_read r = do (v, c) ← r; ok v

-- A value that is put by force, or whose encoding has 32 bytes at least, is represented by its hash,
-- and a read of that hash returns it without a change of the cache; any other value stands for itself.
pub get-put_value :
    (sha3 : List ℕ → List ℕ) (c : Cache) (v : Item) (force : Bool)
    → let (x, c') = put_value sha3 c v force in
      let enc = encode_value (new_value v) in
      if leb 32 (length enc) || force
      then (x ≡ bytes (sha3 enc)) × (get c' (sha3 enc) ≡ ok (new_value v, c'))
      else (x ≡ v) × (c' ≡ c)
unfolding put_value
get-put_value sha3 c v force =
    elim (Bool-cases (leb 32 (length (encode_value (new_value v))) || force)) [
      | inl e ↦ rw e (
        refl,
        get_found _ (sha3 (encode_value (new_value v)))
            (record { value = new_value v; dirty = true }) (lookup-insert_same c.nodes _ _),
      )
      | inr e ↦ rw e (refl, refl)
    ]

commit_nodes-none :
    (m : List (List ℕ × Node)) (db : List (List ℕ × List ℕ)) (key : List ℕ)
    → lookup m key ≡ none
    → lookup (commit_nodes m db) key ≡ lookup db key
unfolding commit_nodes lookup
commit_nodes-none [] db key e = refl
commit_nodes-none ((k, n) ∷ m) db key e =
    let rest = commit_nodes m db in
    ground (arith, commit_nodes-none m db key, lookup-insert rest k (encode_value n.value) key)

commit_nodes_dirty :
    (m : List (List ℕ × Node)) (db : List (List ℕ × List ℕ)) (key : List ℕ) (n : Node)
    → lookup m key ≡ some n
    → n.dirty ≡ true
    → lookup (commit_nodes m db) key ≡ some (encode_value n.value)
unfolding commit_nodes lookup
commit_nodes_dirty [] db key n e d = absurd (cc)
commit_nodes_dirty ((k, x) ∷ m) db key n e d =
    let rest = commit_nodes m db in
    ground (arith, commit_nodes_dirty m db key n, lookup-insert rest k (encode_value x.value) key)

commit_db : (c : Cache) → c.is_dirty ≡ true → (commit c).db ≡ commit_nodes c.nodes c.db
unfolding commit
commit_db c e = rw e refl

abbrev and_keep : Result Item → (Item → Cache) → Result (Item × Cache)
and_keep r f = do v ← r; ok (v, f v)

read_and_keep : (r : Result Item) (f : Item → Cache) → value_read (and_keep r f) ≡ r
read_and_keep (ok v) f = refl
read_and_keep panic f = refl
read_and_keep out_of_fuel f = refl

get-new_cache :
    (db : List (List ℕ × List ℕ)) (q : List ℕ)
    → value_read (get (new_cache db) q) ≡ new_value_from_bytes (db_get (lookup db q))
unfolding get get_cached new_cache lookup
get-new_cache db q = read_and_keep (new_value_from_bytes (db_get (lookup db q))) (λ v. record {
  nodes = insert [] q (record { value = v; dirty = false });
  db = db;
  is_dirty = false;
})

-- After a commit a new cache over the same database reads, under the hash of a node that was dirty,
-- the decoder's form of the node's value; under a key that the cache did not have it reads what it would
-- have read before. This is for a cache that knows that it is dirty, and a value that has an encoding.
pub get-commit :
    (c : Cache) (key : List ℕ) (n : Node)
    → c.is_dirty ≡ true
    → lookup c.nodes key ≡ some n
    → n.dirty ≡ true
    → IsEncodable n.value
    → Fits (encode n.value)
    → (value_read (get (new_cache (commit c).db) key) ≡ ok (decoded n.value))
      × ((q : List ℕ)
          → lookup c.nodes q ≡ none
          → value_read (get (new_cache (commit c).db) q) ≡ value_read (get (new_cache c.db) q))
unfolding encode_value
get-commit c key n dirty found d enc fits = (
  get-new_cache (commit c).db key
      ∙ (ap (λ db. new_value_from_bytes (db_get (lookup db key))) (commit_db c dirty)
          ∙ (ap (λ o. new_value_from_bytes (db_get o))
                (commit_nodes_dirty c.nodes c.db key n found d)
              ∙ new_value_from_bytes-encode n.value enc fits)),
  λ q e.
      get-new_cache (commit c).db q
      ∙ (ap (λ db. new_value_from_bytes (db_get (lookup db q))) (commit_db c dirty)
          ∙ (ap (λ o. new_value_from_bytes (db_get o)) (commit_nodes-none c.nodes c.db q e)
              ∙ sym (get-new_cache c.db q))),
)

drop_dirty-insert :
    (m : List (List ℕ × Node)) (key : List ℕ) (v : Item)
    → lookup m key ≡ none
    → drop_dirty (insert m key (record { value = v; dirty = true })) ≡ drop_dirty m
unfolding drop_dirty insert lookup
drop_dirty-insert [] key v e = refl
drop_dirty-insert ((k, n) ∷ m) key v e = ground (arith, drop_dirty-insert m key v)

-- An undo takes back a put of a node under a hash that the cache did not have.
pub undo-put_value :
    (sha3 : List ℕ → List ℕ) (c : Cache) (v : Item) (force : Bool)
    → lookup c.nodes (sha3 (encode_value (new_value v))) ≡ none
    → undo (put_value sha3 c v force).1 ≡ undo c
unfolding undo put_value
undo-put_value sha3 c v force e =
    elim (Bool-cases (leb 32 (length (encode_value (new_value v))) || force)) [
      | inl f ↦
          rw (f, drop_dirty-insert c.nodes (sha3 (encode_value (new_value v))) (new_value v) e) refl
      | inr f ↦ rw f refl
    ]
