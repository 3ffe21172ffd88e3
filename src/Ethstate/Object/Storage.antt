-- ===== src/Ethstate/Object/Storage.antt =====
-- The storage of an object, read through its cache.
use eth_go.Common.{
  ℕ, ◌≡◌, ◌≢◌, refl, sym, ap, ◌∙◌, arith, List, ◌==◌, ==_iff, if◌then◌else◌, Bool-cases, inl, inr,
  Result, ok, panic, out_of_fuel, ◌>>=◌, same_bytes, same_bytes-eq, same_bytes_refl, lookup,
  lookup-insert, insert, Option, none, some,
}
use eth_go.Common.Int.{ℤ, nat_abs}
use eth_go.Ethutil.Bytes.{left_pad_bytes, to_bytes, from_bytes}
use eth_go.Ethutil.Bytes.Numbers.{from_bytes-to_bytes}
use eth_go.Ethutil.Bytes.Pads.{left_pad_bytes_lem}
use eth_go.Ethutil.Item.{Item, nil_value, num, byte, big, nil_big, bytes, str, slice, value, other}
use eth_go.Ethutil.Value.{new_value, copy_value, is_nil}
use eth_go.Ethstate.Trie.{TrieOps}
use eth_go.Ethstate.Object.{
  StateObject, storage_key, get_storage, cache_value, read_storage, get_addr, set_storage,
}

-- What a read returns, without the object that it may have changed.
abbrev pub value_read : {T : Type 0} → Result (Item × StateObject T) → Result Item
value_read r = do (v, o) ← r; ok v

storage_key_value : (k : ℤ) → from_bytes (storage_key k) ≡ nat_abs k
storage_key_value k =
    (left_pad_bytes_lem (to_bytes (nat_abs k)) 32).0 ∙ from_bytes-to_bytes (nat_abs k)

storage_key_same : (a b : ℤ) → nat_abs a ≡ nat_abs b → storage_key a ≡ storage_key b
storage_key_same a b h = ap (λ n. left_pad_bytes (to_bytes n) 32) h

-- Two keys have one place exactly where their absolute values are the same.
same_bytes-storage_key :
    (a b : ℤ) → same_bytes (storage_key a) (storage_key b) ≡ (nat_abs a == nat_abs b)
same_bytes-storage_key a b = elim (Bool-cases (same_bytes (storage_key a) (storage_key b))) [
  | inl e ↦ rw e (
      let same = ap from_bytes (same_bytes-eq (storage_key a) (storage_key b) e) in
      ground (arith, sym (storage_key_value a) ∙ same ∙ storage_key_value b))
  | inr e ↦ rw e (
      ground (
        arith,
        (==_iff (nat_abs a) (nat_abs b)).0,
        storage_key_same a b,
        same_bytes_refl (storage_key a),
      ))
]

-- A cached value, or what the trie has.
abbrev cached_or : Option Item → Result Item → Result Item
cached_or none r = r
cached_or (some v) r = ok v

abbrev and_cache :
    {T : Type 0} → Result Item → (Item → StateObject T) → Result (Item × StateObject T)
and_cache r f = do v ← r; ok (v, f v)

read_and_cache :
    {T : Type 0} (r : Result Item) (f : Item → StateObject T) → value_read (and_cache r f) ≡ r
read_and_cache (ok v) f = refl
read_and_cache panic f = refl
read_and_cache out_of_fuel f = refl

read_and_cache_ok :
    {T : Type 0} (r : Result Item) (f : Item → StateObject T) (v : Item) (o' : StateObject T)
    → and_cache r f ≡ ok (v, o')
    → (r ≡ ok v) × (o' ≡ f v)
read_and_cache_ok (ok x) f v o' h = (cc, cc)
read_and_cache_ok panic f v o' h = absurd (cc)
read_and_cache_ok out_of_fuel f v o' h = absurd (cc)

module _ {T : Type 0} (ops : TrieOps T) where
  read_storage_reads :
      (o : StateObject T) (k : List ℕ) (c : Option Item)
      → value_read (read_storage ops o k c) ≡ cached_or c (get_addr ops o k)
  unfolding read_storage
  read_storage_reads o k none = read_and_cache (get_addr ops o k) (cache_value o k)
  read_storage_reads o k (some v) = refl

  get_storage_reads :
      (o : StateObject T) (q : ℤ)
      → value_read (get_storage ops o q)
        ≡ cached_or (lookup o.storage (storage_key q)) (get_addr ops o (storage_key q))
  unfolding get_storage
  get_storage_reads o q = read_storage_reads o (storage_key q) _

  copy_value_lem : (v : Item) → v ≢ nil_big → copy_value v ≡ ok (new_value v)
  unfolding copy_value
  copy_value_lem nil_big h = absurd (h refl)
  copy_value_lem (big z) h = refl
  copy_value_lem (bytes t) h = refl
  copy_value_lem nil_value h = refl
  copy_value_lem (num k z) h = refl
  copy_value_lem (byte b) h = refl
  copy_value_lem (str t) h = refl
  copy_value_lem (slice xs) h = refl
  copy_value_lem (value v) h = refl
  copy_value_lem other h = refl

  -- After a value is stored, a read of a key with the same absolute value returns it, and a read of
  -- any other key returns what it would have returned before. SetStorage stores every value but a nil
  -- big integer, whose copy panics.
  pub get_storage-set_storage :
      (o : StateObject T) (k : ℤ) (v : Item) (q : ℤ)
      → v ≢ nil_big
      → (o' : StateObject T) × (set_storage o k v ≡ ok o')
        × (value_read (get_storage ops o' q) ≡ (
            if nat_abs k == nat_abs q then ok (new_value v) else value_read (get_storage ops o q)))
  unfolding set_storage get_addr
  get_storage-set_storage o k v q h = (
    record o { storage = insert o.storage (storage_key k) (new_value v) },
    rw (copy_value_lem v h) refl,
    rw
        (
          get_storage_reads,
          get_storage_reads,
          lookup-insert o.storage (storage_key k) (new_value v) (storage_key q),
          same_bytes-storage_key k q,
        )
        (elim (Bool-cases (nat_abs k == nat_abs q)) [ inl e ↦ rw e refl | inr e ↦ rw e refl ]),
  )

  cache_value_keeps :
      (o : StateObject T) (k : List ℕ) (v : Item) (q : List ℕ)
      → lookup o.storage k ≡ none
      → get_addr ops o k ≡ ok v
      → cached_or (lookup (cache_value o k v).storage q) (get_addr ops (cache_value o k v) q)
        ≡ cached_or (lookup o.storage q) (get_addr ops o q)
  unfolding cache_value get_addr
  cache_value_keeps o k v q h g = elim (Bool-cases (is_nil v)) [
    | inl e ↦ rw e refl
    | inr e ↦
        rw (e, lookup-insert o.storage k v q)
          (elim (Bool-cases (same_bytes k q)) [
            | inl f ↦ rw (f, sym (same_bytes-eq k q f), h) (sym g)
            | inr f ↦ rw f refl
          ])
  ]

  -- What a read leaves: the trie, and a cache that answers as the old one and the trie did.
  read_storage_keeps :
      (o : StateObject T) (k : List ℕ) (c : Option Item) (v : Item) (o' : StateObject T)
      → lookup o.storage k ≡ c
      → read_storage ops o k c ≡ ok (v, o')
      → (q : List ℕ)
      → cached_or (lookup o'.storage q) (get_addr ops o' q)
        ≡ cached_or (lookup o.storage q) (get_addr ops o q)
  unfolding read_storage
  read_storage_keeps o k none v o' e h q =
      let (found, same) = read_and_cache_ok (get_addr ops o k) (cache_value o k) v o' h in
      rw same (cache_value_keeps o k v q e found)
  read_storage_keeps o k (some x) v o' e h q = let same : o' ≡ o = cc in rw same refl

  -- Reading caches: a second read returns what the first one did, of any key.
  pub get_storage_stable :
      (o : StateObject T) (k : ℤ) (v : Item) (o' : StateObject T) (q : ℤ)
      → get_storage ops o k ≡ ok (v, o')
      → value_read (get_storage ops o' q) ≡ value_read (get_storage ops o q)
  unfolding get_storage
  get_storage_stable o k v o' q h =
      rw (get_storage_reads, get_storage_reads)
        (read_storage_keeps o (storage_key k) (lookup o.storage (storage_key k)) v o' refl h
          (storage_key q))
