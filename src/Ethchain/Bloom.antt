-- ===== src/Ethchain/Bloom.antt =====
-- ethchain/bloom.go: a filter with a byte for each value of a byte.
pub mod Laws
mod Runs
use eth_go.Common.{
  ℕ, ◌-◌, List, [], ◌∷◌, Bool, true, false, ltb, ◌==◌, if◌then◌else◌, length, drop, replicate,
  set as set_at, Result, ok, panic, ◌>>=◌, index, Option, none, some,
}

pub record BloomFilter : Type 0 where
  pub bin : List ℕ

unfoldable pub new_bloom_filter : Option (List ℕ) → BloomFilter
new_bloom_filter none = record { bin = replicate 256 0 }
new_bloom_filter (some bin) = record { bin = bin }

-- `addr[len(addr)-8:]`
abbrev pub last_eight : List ℕ → List ℕ
last_eight addr = drop (length addr - 8) addr

-- The loop of `Set`. An index behind the end of the bin panics.
unfoldable pub mark_all : List ℕ → List ℕ → Result (List ℕ)
mark_all bin [] = ok bin
mark_all bin (i ∷ rest) =
    let marked = mark_all (set_at bin i 1) rest in if ltb i (length bin) then marked else panic

unfoldable pub set : List ℕ → BloomFilter → Result BloomFilter
unfolding mark_all
set addr f =
    if ltb (length addr) 8
    then ok f
    else (do bin ← mark_all f.bin (last_eight addr); ok (record { bin = bin }))

-- The loop of `Search`.
unfoldable pub all_marked : List ℕ → List ℕ → Result Bool
all_marked bin [] = ok true
all_marked bin (i ∷ rest) =
    let others = all_marked bin rest in do b ← index bin i; if b == 0 then ok false else others

unfoldable pub search_for : List ℕ → BloomFilter → Result Bool
unfolding all_marked
search_for addr f = if ltb (length addr) 8 then ok false else all_marked f.bin (last_eight addr)
