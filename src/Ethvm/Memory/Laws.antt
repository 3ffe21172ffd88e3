-- ===== src/Ethvm/Memory/Laws.antt =====
-- What is written to the memory is read back, and the rest is left alone.
use eth_go.Common.{
  ℕ, ◌+◌, ◌-◌, ◌≤◌, ◌<◌, ◌≡◌, refl, ◌^◌, false, ◌⊎◌, inl, inr, ◌∙◌, arith, List, ◌++◌, leb,
  if◌then◌else◌, length, length-append, length-take, length-drop, length-replicate, get_elem?, take,
  drop, replicate, min, max, ok, slice as slice_of, slice-append, get_elem?-append_left,
  get_elem?-append_right, get_elem?-take, get_elem?-drop,
}
use eth_go.Ethvm.Memory.{Memory, len, copy_at, set, resize, get}

-- The store of `Set` before the copy.
abbrev pub grown : List ℕ → ℕ → List ℕ
grown store tot =
    if leb (length store) tot then store ++ replicate (tot - length store) 0 else store

length-grown : (store : List ℕ) (tot : ℕ) → length (grown store tot) ≡ max (length store) tot
length-grown store tot = ground (
  arith,
  length-append store (replicate (tot - length store) 0),
  length-replicate {A = ℕ} (tot - length store) 0,
)

slice_within :
    (xs : List ℕ) (a b : ℕ)
    → a ≤ b
    → b ≤ length xs
    → slice_of xs a b ≡ ok (take (b - a) (drop a xs))
unfolding slice_of
slice_within xs a b h k = ground arith

not_above : (n : ℕ) → n < 2 ^ 63 → leb (2 ^ 63) n ≡ false
not_above n h = ground arith

-- `Set` does not panic, if the sum fits an int64: it grows the store as far as needed and copies.
set_lem :
    (offset size : ℕ) (value : List ℕ) (m : Memory)
    → offset + size < 2 ^ 63
    → set offset size value m
      ≡ ok (record { store = copy_at (grown m.store (offset + size)) offset size value })
unfolding set
set_lem offset size value m small =
    rw
      (
        slice_within (grown m.store (offset + size)) offset (offset + size) (omega arith)
            (omega (arith, length-grown m.store (offset + size))),
        not_above (offset + size) small,
      )
      refl

length-copy_at :
    (store : List ℕ) (at' n : ℕ) (value : List ℕ)
    → at' + n ≤ length store
    → length (copy_at store at' n value) ≡ length store
unfolding copy_at
length-copy_at store at' n value h =
    let k = min n (length value) in
    omega (
      arith,
      length-append (take at' store) (take k value ++ drop (at' + k) store),
      length-append (take k value) (drop (at' + k) store),
      length-take at' store,
      length-take k value,
      length-drop (at' + k) store,
    )

-- Reading back the bytes that were copied.
slice-copy_at :
    (store : List ℕ) (at' n : ℕ) (value : List ℕ)
    → at' + n ≤ length store
    → n ≤ length value
    → slice_of (copy_at store at' n value) at' (at' + n) ≡ ok (take n value)
unfolding copy_at
slice-copy_at store at' n value h k =
    let whole : min n (length value) ≡ n = omega arith in
    rw whole (
      slice-append (take at' store) (take n value) (drop (at' + n) store) at' (at' + n)
        (omega (arith, length-take at' store))
        (omega (arith, length-take at' store, length-take n value)))

-- After `Set` of `size` bytes `Get` returns them, wherever they were written and however long the
-- memory was, if the end of the bytes is below 2^63; and the memory has just the length that it had or
-- that the bytes need.
pub get-set :
    (offset size : ℕ) (value : List ℕ) (m : Memory)
    → 0 < size
    → size ≤ length value
    → offset + size < 2 ^ 63
    → (m' : Memory) × (set offset size value m ≡ ok m')
      × (get offset size m' ≡ ok (take size value))
      × (len m' ≡ max (len m) (offset + size))
unfolding get len
get-set offset size value m pos enough small =
    let store = grown m.store (offset + size) in
    let grew = length-grown m.store (offset + size) in
    let kept = length-copy_at store offset size value (omega (arith, grew)) in
    (
      record { store = copy_at store offset size value },
      set_lem offset size value m small,
      ground (
        arith,
        kept,
        grew,
        slice-copy_at store offset size value,
        not_above (offset + size) small,
      ),
      omega (arith, kept, grew),
    )

get_elem?-grown :
    (store : List ℕ) (tot i : ℕ)
    → i < length store
    → get_elem? (grown store tot) i ≡ get_elem? store i
get_elem?-grown store tot i h =
    ground (arith, get_elem?-append_left store (replicate (tot - length store) 0) i)

module _ (store : List ℕ) (at' n : ℕ) (value : List ℕ) (i : ℕ) (h : at' + n ≤ length store) where
  copy_at_before : i < at' → get_elem? (copy_at store at' n value) i ≡ get_elem? store i
  unfolding copy_at
  copy_at_before lt =
      get_elem?-append_left (take at' store) _ i (omega (arith, length-take at' store))
      ∙ get_elem?-take at' store i lt

  copy_at_behind : at' + n ≤ i → get_elem? (copy_at store at' n value) i ≡ get_elem? store i
  unfolding copy_at
  copy_at_behind le =
      let k = min n (length value) in
      get_elem?-append_right (take at' store) _ i (i - at') (omega (arith, length-take at' store))
      ∙ get_elem?-append_right (take k value) _ (i - at') (i - at' - k)
          (omega (arith, length-take k value))
      ∙ get_elem?-drop (at' + k) store (i - at' - k) i (omega arith)

-- `Set` leaves every byte alone that the memory had outside the range that is written.
pub set_frame :
    (offset size : ℕ) (value : List ℕ) (m m' : Memory) (i : ℕ)
    → offset + size < 2 ^ 63
    → set offset size value m ≡ ok m'
    → i < len m
    → (i < offset) ⊎ (offset + size ≤ i)
    → get_elem? m'.store i ≡ get_elem? m.store i
unfolding len
set_frame offset size value m m' i small e h side =
    let store = grown m.store (offset + size) in
    let room = length-grown m.store (offset + size) in
    let result : record { store = copy_at store offset size value } ≡ m' =
      cc (e, set_lem offset size value m small) in
    rw (← result) (elim side [
      | inl before ↦
          copy_at_before store offset size value i (omega (arith, room)) before
          ∙ get_elem?-grown m.store (offset + size) i h
      | inr behind ↦
          copy_at_behind store offset size value i (omega (arith, room)) behind
          ∙ get_elem?-grown m.store (offset + size) i h
    ])

-- `Resize` never shrinks the memory, reaches the size, and keeps what was there.
pub resize_lem :
    (size : ℕ) (m : Memory)
    → (len (resize size m) ≡ max (len m) size)
      × ((i : ℕ) → i < len m → get_elem? (resize size m).store i ≡ get_elem? m.store i)
unfolding resize len
resize_lem size m = (
  ground (
    arith,
    length-append m.store (replicate (size - length m.store) 0),
    length-replicate {A = ℕ} (size - length m.store) 0,
  ),
  λ i h. ground (arith, get_elem?-append_left m.store (replicate (size - length m.store) 0) i),
)
