-- ===== src/Script.antt =====
-- internal/script
pub mod Opcodes
pub mod Command
pub mod Codec
pub mod Num
pub mod Engine
pub mod Tests
