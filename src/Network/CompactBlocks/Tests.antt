-- ===== src/Network/CompactBlocks/Tests.antt =====
-- A compact block of three transactions, the first and the last of them prefilled.
use go_bitcoin.Base.{ℕ, List, [], ◌∷◌, ◌++◌, ◌≡◌, refl, arith, ok, inl}
use go_bitcoin.Base.Bytes.{bytes_reader}
use go_bitcoin.Block.Tests.{header_at, header_at-IsHeader}
use go_bitcoin.Transactions.Transaction.RoundTrip.{IsFormed}
use go_bitcoin.Transactions.Tests.{segwit_tx, segwit_tx-IsFresh, segwit_tx-IsWitness}
use go_bitcoin.Network.Reconstruction.{CompactBlockMessage}
use go_bitcoin.Network.CompactBlocks.CompactBlock.{serialize, parse_compact_block_message}
use go_bitcoin.Network.CompactBlocks.CompactBlock.RoundTrip.{parse_compact_block_message-serialize}

abbrev compact_block : CompactBlockMessage
compact_block = record {
  header = header_at 1500000000;
  nonce = 77;
  short_ids = (1 ∷ 2 ∷ 3 ∷ 4 ∷ 5 ∷ 6 ∷ []) ∷ [];
  prefilled_txns = record { index = 0; tx = segwit_tx } ∷ record { index = 2; tx = segwit_tx } ∷ [];
}

segwit_tx-IsFormed : IsFormed segwit_tx
segwit_tx-IsFormed = inl (refl, (segwit_tx-IsWitness, tt))

parse_compact_block_message-serialize_example :
    (bs : List ℕ) × (serialize compact_block ≡ ok bs)
    × ((rest : List ℕ)
        → parse_compact_block_message bytes_reader (bs ++ rest) ≡ ok (compact_block, rest))
parse_compact_block_message-serialize_example =
    parse_compact_block_message-serialize bytes_reader compact_block header_at-IsHeader refl
      (omega arith) (refl, tt) (omega arith) (omega arith)
      (
        omega arith,
        omega arith,
        (segwit_tx-IsFresh, segwit_tx-IsFormed),
        (omega arith, omega arith, (segwit_tx-IsFresh, segwit_tx-IsFormed), tt),
      )
