-- ===== src/Ethvm.antt =====
-- Package ethvm: the stack, the memory and the gas of a closure.
pub mod Stack
pub mod Memory
pub mod Closure
pub mod Words
pub mod Opcodes
pub mod Asm
pub mod Vm
