-- ===== src/Ethstate.antt =====
-- Package ethstate: accounts, and the state that holds them.
pub mod Trie
pub mod MapTrie
mod HashTrie
pub mod Object
pub mod Accounts
