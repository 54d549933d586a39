-- ===== src/Network/CompactBlocks.antt =====
-- The messages of internal/network/compact.go with transactions, and the choice of compact blocks.
pub mod CompactBlock
pub mod BlockTransaction
pub mod SendCompact
mod Tests
