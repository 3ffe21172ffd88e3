-- ===== src/Ethtrie.antt =====
-- Package ethtrie: keys of the trie, its cache of nodes, and the trie.
pub mod Slice
pub mod Encoding
pub mod Cache
pub mod Trie
