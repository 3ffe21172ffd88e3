-- ===== src/Ethutil/Item.antt =====
-- The Go values that ethutil/rlp.go and ethutil/value.go switch on (`interface{}` in the source).
use eth_go.Common.{ℕ, suc, ◌-◌, ◌^◌, List, [], ◌∷◌, ltb, if◌then◌else◌}
use eth_go.Common.Int.{ℤ, pos, negsuc}

-- The integer types other than `byte`. An `int` and a `uint` have 64 bits.
pub data IntKind : Type 0 where
  int int8 int16 int32 int64 uint uint16 uint32 uint64 : IntKind

mutual
  -- `nil_big` is a nil `*big.Int`; `value v` is a `*Value` whose `Val` is `v`; `other` is a value of
  -- a type that the switch of `Encode` does not name.
  pub data Item : Type 0 where
    nil_value : Item
    num : IntKind → ℤ → Item
    byte : ℕ → Item
    big : ℤ → Item
    nil_big : Item
    bytes : List ℕ → Item
    str : List ℕ → Item
    slice : Items → Item
    value : Item → Item
    other : Item

  -- A `[]interface{}`.
  pub data Items : Type 0 where
    nil : Items
    cons : Item → Items → Items

-- The conversion `int64(t)`: an unsigned number of 64 bits may come out negative.
abbrev pub to_int64 : ℤ → ℤ
to_int64 (pos n) = if ltb n (2 ^ 63) then pos n else negsuc (2 ^ 64 - n - 1)
to_int64 (negsuc n) = negsuc n

abbrev pub length_items : Items → ℕ
length_items nil = 0
length_items (cons x xs) = suc (length_items xs)

abbrev pub items_of : List Item → Items
items_of [] = nil
items_of (x ∷ xs) = cons x (items_of xs)
