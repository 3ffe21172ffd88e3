-- ===== src/Ethchain/Block/Samples.antt =====
-- A hash and a header that the runs on blocks and chains share.
use eth_go.Common.{◌%◌, [], ◌∷◌, ◌++◌, length, replicate, some}
use eth_go.Common.Int.{pos}
use eth_go.Ethutil.Item.{str}
use eth_go.Ethchain.Transaction.{Crypto}
use eth_go.Ethchain.Block.{Header}

-- A hash of 32 bytes, of the length of what is hashed.
abbrev pub toy : Crypto
toy = record {
  sha3 = λ b. (length b % 256) ∷ replicate 31 7;
  sign = λ h k. h ++ k;
  recover = λ h s. 4 ∷ s;
}

abbrev pub uncle : Header
uncle = record {
  prev_hash = 1 ∷ 2 ∷ [];
  uncle_sha = [];
  coinbase = 5 ∷ [];
  root = str [];
  tx_sha = [];
  difficulty = pos 131072;
  number = some (pos 3);
  min_gas_price = pos 0;
  gas_limit = pos 1000000;
  gas_used = pos 500000;
  time = pos 77;
  extra = 104 ∷ 105 ∷ [];
  nonce = 9 ∷ 9 ∷ [];
}
