-- ===== src/Block.antt =====
-- The block package: internal/block/block.go.
pub mod Header
pub mod Target
pub mod Checks
pub mod FullBlock
pub mod Tests
