-- ===== src/Network.antt =====
-- The network package: the message envelope, the requests of compact blocks and the reduction of
-- hashes.
pub mod Envelope
pub mod GetBlockTxn
pub mod Reduction
pub mod Gcs
pub mod CompactFilters
pub mod Mempool
pub mod Reconstruction
pub mod CompactBlocks
pub mod MerkleBlock
pub mod BloomFilter
pub mod Headers
pub mod GetData
pub mod Version
pub mod Plain
pub mod Tests
