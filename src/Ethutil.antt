-- ===== src/Ethutil.antt =====
-- Package ethutil: bytes, big integers, the RLP codec and the values that it reads and writes.
pub mod Bytes
pub mod Item
pub mod Rlp
pub mod Value
