-- ===== src/Ethchain/Manager/Runs.antt =====
-- The filter of a message, and the theorem on filters at it.
use eth_go.Common.{◌≡◌, arith, [], ◌∷◌, ok, All}
use eth_go.Common.Int.{pos}
use eth_go.Ethchain.Bloom.{BloomFilter}
use eth_go.Ethchain.Manager.{create_bloom_filter}
use eth_go.Ethchain.Manager.Filters.{FindsBoth, HasBytes, create_bloom_filter-finds}
use eth_go.Ethvm.Vm.{Message}

abbrev msg : Message
msg = record {
  to = 9 ∷ 1 ∷ 2 ∷ 3 ∷ 4 ∷ 5 ∷ 6 ∷ 7 ∷ 255 ∷ [];
  from = 3 ∷ [];
  input = [];
  output = [];
  value = pos 4;
  changed_addresses = [];
}

abbrev msg-HasBytes : HasBytes msg
msg-HasBytes = (
  (
    omega arith,
    (
      omega arith,
      (
        omega arith,
        (
          omega arith,
          (omega arith, (omega arith, (omega arith, (omega arith, (omega arith, tt))))),
        ),
      ),
    ),
  ),
  (omega arith, tt),
)

create_bloom_filter-finds_example :
    (f : BloomFilter) × (create_bloom_filter (msg ∷ []) ≡ ok f) × All (FindsBoth f) (msg ∷ [])
create_bloom_filter-finds_example = create_bloom_filter-finds (msg ∷ []) (msg-HasBytes, tt)
