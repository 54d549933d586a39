-- ===== src/Eccmath.antt =====
-- internal/eccmath
pub mod Signature
pub mod FieldElement
pub mod Point
pub mod Secp256k1
pub mod Tests
