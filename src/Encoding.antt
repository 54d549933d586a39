-- ===== src/Encoding.antt =====
-- internal/encoding
pub mod BitStream
pub mod VarInt
pub mod Hash
pub mod Merkle
pub mod Base58
pub mod BitField
pub mod Tests
