-- ===== src/Ethvm/Memory/Runs.antt =====
-- Runs of the memory, and its theorems at concrete inputs.
use eth_go.Common.{◌-◌, ◌^◌, panic, ◌+◌, ◌≡◌, refl, arith, [], ◌∷◌, take, max, ok}
use eth_go.Ethvm.Memory.{Memory, empty_memory, len, set, get}
use eth_go.Ethvm.Memory.Laws.{get-set}

abbrev four_bytes : Memory
four_bytes = record { store = 1 ∷ 2 ∷ 3 ∷ 4 ∷ [] }

abbrev overwritten : Memory
overwritten = record { store = 1 ∷ 2 ∷ 8 ∷ 9 ∷ [] }

set_end : set 2 2 (8 ∷ 9 ∷ []) four_bytes ≡ ok overwritten
unfolding set
set_end = refl

set_beyond : set 1 2 (8 ∷ 9 ∷ []) empty_memory ≡ ok (record { store = 0 ∷ 8 ∷ 9 ∷ [] })
unfolding set
set_beyond = refl

get_across : get 2 9 four_bytes ≡ ok (3 ∷ 4 ∷ [])
unfolding get
get_across = refl

set_wraps : set (2 ^ 63 - 1) 1 (1 ∷ []) four_bytes ≡ panic
unfolding set
set_wraps = refl

get-set_example :
    (m' : Memory) × (set 3 2 (8 ∷ 9 ∷ []) four_bytes ≡ ok m')
    × (get 3 2 m' ≡ ok (take 2 (8 ∷ 9 ∷ [])))
    × (len m' ≡ max (len four_bytes) (3 + 2))
get-set_example = get-set 3 2 (8 ∷ 9 ∷ []) four_bytes (omega arith) (omega arith) (omega arith)
