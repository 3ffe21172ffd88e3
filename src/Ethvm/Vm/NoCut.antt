-- ===== src/Ethvm/Vm/NoCut.antt =====
-- No instruction of ethvm/vm.go is cut off by the fuel of the model: each returns or panics.
pub mod Steps
pub mod World
use eth_go.Common.{
  append-nil, ℕ, zero, suc, ◌+◌, ◌^◌, ◌<◌, ◌≡◌, arith, List, [], ◌∷◌, Bool, true, false,
  if◌then◌else◌, length, get_elem?, Option, none, some, Result, ok, panic, out_of_fuel, ◌>>=◌,
  or_panic, index, slice as slice_of, lookup,
}
use eth_go.Common.Int.{ℤ, pos, negsuc}
use eth_go.Ethutil.Item.{
  Item, Items, nil_value, num, byte, big, nil_big, bytes, str, slice, value, other,
}
use eth_go.Ethutil.Rlp.{decode}
use eth_go.Ethutil.Rlp.Total.{Advances, decode-Advances, Fits}
use eth_go.Ethutil.Value.{
  uint_of, big_int, bytes_of, get, new_value_from_bytes, new_value_from_slice, decode_value,
}
use eth_go.Ethstate.Trie.{TrieOps, Store}
use eth_go.Ethstate.Object.{
  StateObject, get_storage, read_storage, get_addr, rlp_decode, new_state_object_from_bytes,
  new_state_object,
}
use eth_go.Ethstate.Accounts.{
  State, load_object, found_or_load, get_state_object, get_or_new_state_object, get_balance,
}

pub data NoCut {A : Type 0} : Result A → Type 0 where
  returns : (a : A) → NoCut (ok a)
  panics : NoCut panic

pub NoCut-bind :
    {A B : Type 0} (r : Result A) (f : A → Result B)
    → NoCut r
    → ((a : A) → NoCut (f a))
    → NoCut (r >>= f)
NoCut-bind (ok a) f h k = k a
NoCut-bind panic f h k = panics
NoCut-bind out_of_fuel f h k = elim h [ ]

pub NoCut-if :
    {A : Type 0} (b : Bool) (x y : Result A) → NoCut x → NoCut y → NoCut (if b then x else y)
NoCut-if true x y h k = h
NoCut-if false x y h k = k

pub NoCut-or_panic : {A : Type 0} (o : Option A) → NoCut (or_panic o)
NoCut-or_panic none = panics
NoCut-or_panic (some a) = returns a

pub NoCut-elim :
    {A B : Type 0} (o : Option A) (f : A → Result B)
    → ((a : A) → NoCut (f a))
    → NoCut (elim o [ none ↦ panic | some a ↦ f a ])
NoCut-elim none f h = panics
NoCut-elim (some a) f h = h a

pub ruleset plain = (returns, panics, NoCut-bind, NoCut-if, NoCut-or_panic)

pub NoCut-slice : {A : Type 0} (xs : List A) (from to : ℕ) → NoCut (slice_of xs from to)
unfolding slice_of
NoCut-slice xs from to = search plain

pub NoCut-uint_of : (v : Item) → NoCut (uint_of v)
unfolding uint_of
NoCut-uint_of nil_value = returns _
NoCut-uint_of (num k z) = returns _
NoCut-uint_of (byte b) = returns _
NoCut-uint_of (big z) = returns _
NoCut-uint_of nil_big = panics
NoCut-uint_of (bytes t) = returns _
NoCut-uint_of (str t) = returns _
NoCut-uint_of (slice xs) = returns _
NoCut-uint_of (value v) = returns _
NoCut-uint_of other = returns _

pub NoCut-bytes_of : (v : Item) → NoCut (bytes_of v)
unfolding bytes_of
NoCut-bytes_of nil_value = returns _
NoCut-bytes_of (num k z) = returns _
NoCut-bytes_of (byte b) = returns _
NoCut-bytes_of (big z) = returns _
NoCut-bytes_of nil_big = panics
NoCut-bytes_of (bytes t) = returns _
NoCut-bytes_of (str t) = returns _
NoCut-bytes_of (slice xs) = returns _
NoCut-bytes_of (value v) = returns _
NoCut-bytes_of other = returns _

pub NoCut-big_int : (v : Item) → NoCut (big_int v)
unfolding big_int uint_of
NoCut-big_int (big z) = returns _
NoCut-big_int nil_big = returns _
NoCut-big_int (bytes t) = returns _
NoCut-big_int nil_value = returns _
NoCut-big_int (num k z) = returns _
NoCut-big_int (byte b) = returns _
NoCut-big_int (str t) = returns _
NoCut-big_int (slice xs) = returns _
NoCut-big_int (value v) = returns _
NoCut-big_int other = returns _

NoCut-Advances : {A : Type 0} (lo hi : ℕ) (r : Result (A × ℕ)) → Advances lo hi r → NoCut r
NoCut-Advances lo hi (ok a) h = returns a
NoCut-Advances lo hi panic h = panics
NoCut-Advances lo hi out_of_fuel h = absurd h

pub NoCut-new_value : (data' : List ℕ) → Fits data' → NoCut (new_value_from_bytes data')
unfolding new_value_from_slice decode_value bytes_of
NoCut-new_value [] h = returns _
NoCut-new_value (b ∷ bs) h =
    let decoded =
      NoCut-Advances _ _ (decode [] (b ∷ bs) 0) (decode-Advances [] (b ∷ bs) 0 (rw append-nil h)) in
    NoCut-bind (decode [] (b ∷ bs) 0) _ decoded (λ x. returns _)

-- What the state reads of its tries is shorter than an int64.
abbrev pub Bounded : {T : Type 0} → TrieOps T → Type 0
Bounded {T} ops = (t : T) (k : List ℕ) → Fits (ops.get t k)

module _ {T : Type 0} (ops : TrieOps T) (sha3 : List ℕ → List ℕ) (fits : Bounded ops) where
  NoCut-read_storage :
      (o : StateObject T) (k : List ℕ) (v : Option Item) → NoCut (read_storage ops o k v)
  unfolding read_storage get_addr
  NoCut-read_storage o k (some v) = returns _
  NoCut-read_storage o k none = search (plain, NoCut-new_value, fits)

  pub NoCut-get_storage : (o : StateObject T) (key : ℤ) → NoCut (get_storage ops o key)
  unfolding get_storage
  NoCut-get_storage o key = NoCut-read_storage o _ _

  NoCut-rlp_decode :
      (db : Store) (o : StateObject T) (bs : List ℕ) → Fits bs → NoCut (rlp_decode ops db o bs)
  unfolding rlp_decode
  NoCut-rlp_decode db o bs h = NoCut-bind _ _ (NoCut-new_value bs h) (λ d.
      NoCut-bind _ _ (NoCut-uint_of (get d (pos 0))) (λ n.
        NoCut-bind _ _ (NoCut-big_int (get d (pos 1))) (λ z.
          NoCut-bind _ _ (NoCut-bytes_of (get d (pos 3)))
            (λ hash. NoCut-elim z _ (λ z. returns _)))))

  NoCut-load_object : (s : State T) (a bs : List ℕ) → Fits bs → NoCut (load_object ops sha3 s a bs)
  unfolding load_object new_state_object_from_bytes
  NoCut-load_object s a [] h = returns _
  NoCut-load_object s a (b ∷ bs) h = search (plain, NoCut-rlp_decode)

  NoCut-found_or_load :
      (s : State T) (a : List ℕ) (found : Option ℕ) → NoCut (found_or_load ops sha3 s a found)
  unfolding found_or_load
  NoCut-found_or_load s a (some h) = returns _
  NoCut-found_or_load s a none = NoCut-load_object s a _ (fits s.trie a)

  pub NoCut-get_state_object :
      (s : State T) (addr : List ℕ) → NoCut (get_state_object ops sha3 s addr)
  unfolding get_state_object
  NoCut-get_state_object s addr = NoCut-found_or_load s _ _

  pub NoCut-get_or_new :
      (s : State T) (addr : List ℕ) → NoCut (get_or_new_state_object ops sha3 s addr)
  unfolding get_or_new_state_object
  NoCut-get_or_new s addr = NoCut-bind _ _ (NoCut-get_state_object s addr) (λ found. returns _)

  pub NoCut-get_balance : (s : State T) (addr : List ℕ) → NoCut (get_balance ops sha3 s addr)
  unfolding get_balance
  NoCut-get_balance s addr = NoCut-bind _ _ (NoCut-get_state_object s addr) (λ found. returns _)
