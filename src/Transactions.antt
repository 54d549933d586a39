-- ===== src/Transactions.antt =====
-- internal/transactions: transactions, their inputs and outputs, their digests, signing and verifying.
pub mod TxIn
pub mod TxOut
pub mod Transaction
pub mod Fetch
pub mod SigHash
pub mod Run
pub mod ScriptCode
pub mod SegwitHash
pub mod Fee
pub mod Verify
pub mod Sign
pub mod Coinbase
pub mod Tests
