-- ===== src/Ethchain/Bloom/Runs.antt =====
-- Filters at concrete addresses.
use eth_go.Common.{ℕ, ◌≡◌, refl, List, [], ◌∷◌, ok, panic, some, replicate}
use eth_go.Ethchain.Bloom.{BloomFilter, new_bloom_filter, set}

abbrev eight : List ℕ
eight = 0 ∷ 1 ∷ 2 ∷ 3 ∷ 4 ∷ 5 ∷ 6 ∷ 7 ∷ []

-- A filter of ten bytes.
abbrev small_filter : BloomFilter
small_filter = record { bin = replicate 10 0 }

abbrev marked_filter : BloomFilter
marked_filter = record { bin = 1 ∷ 1 ∷ 1 ∷ 1 ∷ 1 ∷ 1 ∷ 1 ∷ 1 ∷ 0 ∷ 0 ∷ [] }

marked : set eight small_filter ≡ ok marked_filter
unfolding set
marked = refl

-- The filter that is stored for the genesis block has 255 bytes, and none for the byte 255.
last_byte : set (replicate 8 255) (new_bloom_filter (some (replicate 255 0))) ≡ panic
unfolding set new_bloom_filter
last_byte = refl
