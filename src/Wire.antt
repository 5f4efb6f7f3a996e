-- ===== src/Wire.antt =====
-- The byte level that all packets share: words in memory on the little-endian hosts the program is
-- built for, network byte order, and the XOR of text (P2PChat.cpp, IceAgent.cpp).
pub mod Words
pub mod Order
pub mod Xor
mod Tests
