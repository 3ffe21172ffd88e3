-- ===== src/Ethtrie/Trie/Single.antt =====
-- A trie with one key: what is stored is found.
use eth_go.Common.{
  ℕ, suc, ◌<◌, ◌≡◌, refl, arith, inl, inr, List, [], ◌∷◌, true, false, leb, ◌==◌, Bool-cases,
  length, take_all, drop_all, insert, lookup-insert_same, le→leb, length-append, All, ok,
  first_step,
}
use eth_go.Ethutil.Bytes.{IsByte}
use eth_go.Ethutil.Item.{Item, bytes, str, slice, items_of}
use eth_go.Ethutil.Value.{new_value, is_nil, len, get, str_of, bytes_of, item_at, encode_value}
use eth_go.Ethtrie.Encoding.{compact_encode, compact_decode, compact_hex_decode}
use eth_go.Ethtrie.Encoding.RoundTrip.{
  IsNibble, split_nibbles, compact_hex_decode_lem, compact_decode-compact_encode,
}
use eth_go.Ethtrie.Slice.{compare_int_slice_iff}
use eth_go.Ethtrie.Cache.{Cache, put_value, put, new_cache}
use eth_go.Ethtrie.Cache.Laws.{get_found}
use eth_go.Ethtrie.Trie.{
  Trie, empty_str, get_node, is_end, get_state, put_short, insert_state, new_trie, set_root, update,
  lookup_trie,
}

split_nibbles-IsNibble : (s : List ℕ) → All IsByte s → All IsNibble (split_nibbles s)
unfolding split_nibbles
split_nibbles-IsNibble [] h = tt
split_nibbles-IsNibble (b ∷ s) (hb, h) = (omega arith, (omega arith, split_nibbles-IsNibble s h))

-- The compact form of a whole key.
whole_key :
    (s : List ℕ)
    → All IsByte s
    → (k' : List ℕ) × (compact_encode (compact_hex_decode s) ≡ ok k')
      × (compact_decode k' ≡ ok (compact_hex_decode s))
whole_key s h =
    first_step (compact_encode (compact_hex_decode s)) compact_decode (compact_hex_decode s) (
      rw (compact_hex_decode_lem s h) (
        compact_decode-compact_encode (split_nibbles s) true (split_nibbles-IsNibble s h)
          (omega (arith, length-append (split_nibbles s) (16 ∷ [])))))

abbrev leaf : List ℕ → List ℕ → Item
leaf k' v = slice (items_of (str k' ∷ str v ∷ []))

found_leaf :
    (fuel : ℕ) (c : Cache) (root : Item) (k k' v : List ℕ)
    → is_end root k ≡ ok false
    → get_node c root ≡ ok (leaf k' v, c)
    → compact_decode k' ≡ ok k
    → get_state (suc (suc fuel)) c root k ≡ ok (str v, c)
unfolding get_state len get str_of item_at new_value
found_leaf fuel c root k k' v end node dec =
    rw
      (
        end,
        node,
        dec,
        take_all k (length k) (omega arith),
        (compare_int_slice_iff k k).1 refl,
        drop_all k (length k) (omega arith),
        le→leb (length k) (length k) (omega arith),
      )
      refl

-- The hash of a leaf, and the cache that has it.
abbrev leaf_hash : (List ℕ → List ℕ) → Item → List ℕ
leaf_hash sha3 x = sha3 (encode_value x)

abbrev with_leaf : (List ℕ → List ℕ) → Cache → Item → Cache
with_leaf sha3 c x = record c {
  nodes = insert c.nodes (leaf_hash sha3 x) (record { value = x; dirty = true });
  is_dirty = true;
}

put_forced :
    (sha3 : List ℕ → List ℕ) (c : Cache) (k' v : List ℕ)
    → put_value sha3 c (leaf k' v) true
      ≡ (bytes (leaf_hash sha3 (leaf k' v)), with_leaf sha3 c (leaf k' v))
unfolding put_value new_value
put_forced sha3 c k' v = elim (Bool-cases (leb 32 (length (encode_value (leaf k' v))))) [
  | inl e ↦ rw e refl
  | inr e ↦ rw e refl
]

leaf_stored :
    (sha3 : List ℕ → List ℕ) (t : Trie) (c : Cache) (k' v : List ℕ)
    → set_root sha3 t (put sha3 c (leaf k' v))
      ≡ record t { root = bytes (leaf_hash sha3 (leaf k' v)); cache = with_leaf sha3 c (leaf k' v) }
unfolding set_root put put_value new_value
leaf_stored sha3 t c k' v = elim (Bool-cases (leb 32 (length (encode_value (leaf k' v))))) [
  | inl e ↦ rw e refl
  | inr e ↦ rw (e, put_forced sha3 c k' v) refl
]

not_zero : (n : ℕ) → (suc n == 0) ≡ false
not_zero n = ground arith

leaf-put :
    (sha3 : List ℕ → List ℕ) (fuel : ℕ) (c : Cache) (k k' v : List ℕ)
    → 0 < length k
    → compact_encode k ≡ ok k'
    → insert_state sha3 (suc fuel) c empty_str k (str v) ≡ ok (put sha3 c (leaf k' v))
unfolding insert_state len bytes_of new_value is_nil put_short
leaf-put sha3 fuel c [] k' v h e = absurd (omega arith)
leaf-put sha3 fuel c (x ∷ k) k' v h e = rw (e, not_zero (length k)) refl

leaf_read :
    (sha3 : List ℕ → List ℕ) (c : Cache) (k' v : List ℕ)
    → length (leaf_hash sha3 (leaf k' v)) ≡ 32
    → get_node (with_leaf sha3 c (leaf k' v)) (bytes (leaf_hash sha3 (leaf k' v)))
      ≡ ok (leaf k' v, with_leaf sha3 c (leaf k' v))
unfolding get_node new_value get str_of bytes_of is_nil
leaf_read sha3 c k' v h = rw h (
    get_found (with_leaf sha3 c (leaf k' v)) (leaf_hash sha3 (leaf k' v))
      (record { value = leaf k' v; dirty = true }) (lookup-insert_same c.nodes _ _))

hash_goes_on :
    (sha3 : List ℕ → List ℕ) (x : Item) (k : List ℕ)
    → 0 < length k
    → length (leaf_hash sha3 x) ≡ 32
    → is_end (bytes (leaf_hash sha3 x)) k ≡ ok false
unfolding is_nil new_value len bytes_of
hash_goes_on sha3 x [] p h = absurd (omega arith)
hash_goes_on sha3 x (b ∷ k) p h = rw (h, not_zero (length k)) refl

-- Under a hash of 32 bytes, a key and a value that are stored in an empty trie are found again: the
-- value of that key is the one that was stored. Two units of fuel are enough for both.
pub lookup_trie-update :
    (sha3 : List ℕ → List ℕ) (fuel : ℕ) (db : List (List ℕ × List ℕ)) (s v : List ℕ)
    → ((b : List ℕ) → length (sha3 b) ≡ 32)
    → All IsByte s
    → (t : Trie) × (update (suc (suc fuel)) sha3 (new_trie db empty_str) s v ≡ ok t)
      × (lookup_trie (suc (suc fuel)) t s ≡ ok (v, t))
unfolding update lookup_trie new_trie str_of new_value
lookup_trie-update sha3 fuel db s v h b =
    let (k', enc, dec) = whole_key s b in
    let k = compact_hex_decode s in
    let c = new_cache db in
    let x = leaf k' v in
    let full : 0 < length k =
      rw (compact_hex_decode_lem s b) (omega (arith, length-append (split_nibbles s) (16 ∷ []))) in
    (
      record { prev_root = empty_str; root = bytes (leaf_hash sha3 x); cache = with_leaf sha3 c x },
      rw
          (
            leaf-put sha3 (suc fuel) c k k' v full enc,
            leaf_stored sha3 (new_trie db empty_str) c k' v,
          )
          refl,
      rw
          (found_leaf fuel (with_leaf sha3 c x) (bytes (leaf_hash sha3 x)) k k' v
            (hash_goes_on sha3 x k full (h _)) (leaf_read sha3 c k' v (h _)) dec)
          refl,
    )
