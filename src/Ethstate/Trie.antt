-- ===== src/Ethstate/Trie.antt =====
-- What ethstate uses of ethtrie/trie.go, of the database and of the hash: the interface between the
-- packages, which the functions of ethstate take. The trie itself is modelled in Ethtrie; no law of it is
-- assumed here.
use eth_go.Common.{ℕ, List, Option}
use eth_go.Ethutil.Item.{Item}

-- `T` is a `*ethtrie.Trie`. `get` gives no bytes for a key that is missing.
pub record TrieOps (T : Type 0) : Type 0 where
  pub empty : T
  pub at_root : Item → T
  pub root : T → Item
  pub get : T → List ℕ → List ℕ
  pub update : T → List ℕ → List ℕ → T
  pub remove : T → List ℕ → T
  pub undo : T → T
  pub sync : T → T
  pub copy : T → T
  -- `ParanoiaCheck`: the trie that it rebuilds where the roots differ.
  pub rebuilt : T → Option T

-- `Sha3Bin`, and `Config.Db.Get` with the error dropped.
pub record Store : Type 0 where
  pub sha3 : List ℕ → List ℕ
  pub read : List ℕ → List ℕ
