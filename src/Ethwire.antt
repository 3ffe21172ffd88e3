-- ===== src/Ethwire.antt =====
-- Package ethwire: the messages of the network.
pub mod Messaging
