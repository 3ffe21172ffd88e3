-- ===== src/Ethchain.antt =====
-- Package ethchain: transactions and what they do to a state.
pub mod Transaction
pub mod Transition
pub mod Pool
pub mod Bloom
pub mod Opcodes
pub mod Block
pub mod Asm
pub mod Chain
pub mod Manager
