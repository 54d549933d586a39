-- ===== src/Network/CompactBlocks/BlockTransaction.antt =====
-- The message BlockTransactionMessage of internal/network/compact.go.
use go_bitcoin.Base.{ℕ, ◌-◌, ◌*◌, ◌^◌, ◌≤◌, ◌<◌, List, [], ◌∷◌, ◌++◌, append_assoc, length}
use go_bitcoin.Base.{All, Result, ok, ◌>>=◌, ◌≡◌, refl, arith}
use go_bitcoin.Base.Bytes.{Reader, read_full}
use go_bitcoin.Base.Bytes.Reading.{read_full-append}
use go_bitcoin.Base.Codes.{
  make, make-ok, ◌>>◌, parse_many, write_many, Codes, CodesBefore, Codes-many,
}
use go_bitcoin.Encoding.VarInt.{read_var_int, encode_var_int}
use go_bitcoin.Encoding.VarInt.Shape.{var_int, encode_var_int-eq-var_int, read_var_int-var_int}
use go_bitcoin.Transactions.Transaction
use go_bitcoin.Transactions.Transaction.{Transaction, parse_transaction}
use go_bitcoin.Transactions.Transaction.RoundTrip.{IsFresh, IsFormed, parse_transaction-Codes}

pub record BlockTransactionMessage : Type 0 where
  pub block_hash : List ℕ
  pub transactions : List Transaction

unfoldable pub parse_block_transaction_message :
    Reader → List ℕ → Result (BlockTransactionMessage × List ℕ)
parse_block_transaction_message r bs = do
  (bh, bs1) ← read_full 32 bs
  (tx_len, bs2) ← read_var_int bs1
  make 8 tx_len
  (txns, rest) ← parse_many (parse_transaction r) tx_len bs2
  ok (record { block_hash = bh; transactions = txns }, rest)

unfoldable pub serialize : BlockTransactionMessage → Result (List ℕ)
serialize bt = do
  tx_len_bytes ← encode_var_int (length bt.transactions)
  tx_bytes ← write_many Transaction.serialize bt.transactions
  ok (bt.block_hash ++ (tx_len_bytes ++ tx_bytes))

transactions-Codes :
    (r : Reader) (txs : List Transaction)
    → All (λ t. IsFresh t × IsFormed t) txs
    → All (λ t. CodesBefore 0 (parse_transaction r) (Transaction.serialize t) t) txs
transactions-Codes r [] h = tt
transactions-Codes r (t ∷ txs) ((fresh, formed), h) =
    let (bs, written, read) = parse_transaction-Codes r t fresh formed in
    ((bs, written, λ rest k. read rest), transactions-Codes r txs h)

-- Transactions that the transaction codec keeps, as many as can be allocated, behind a hash of 32 bytes are written,
-- and read back in front of anything.
parse_block_transaction_message-serialize :
    (r : Reader) (msg : BlockTransactionMessage)
    → length msg.block_hash ≡ 32
    → 8 * length msg.transactions ≤ 2 ^ 48
    → All (λ t. IsFresh t × IsFormed t) msg.transactions
    → Codes (parse_block_transaction_message r) (serialize msg) msg
unfolding parse_block_transaction_message serialize
parse_block_transaction_message-serialize r msg sized few txs =
    let n = length msg.transactions in
    let n_fits : n < 2 ^ 64 - 1 = omega arith in
    let (body, written, taken) =
      Codes-many 0 (parse_transaction r) Transaction.serialize msg.transactions
        (transactions-Codes r msg.transactions txs) in
    (
      msg.block_hash ++ (var_int n ++ body),
      rw (encode_var_int-eq-var_int n n_fits, written) refl,
      (λ rest.
          rw
            (
              append_assoc,
              append_assoc,
              read_full-append 32 msg.block_hash (var_int n ++ (body ++ rest)) sized,
              read_var_int-var_int n (body ++ rest) n_fits,
              make-ok 8 n few,
              taken rest (omega arith),
            )
            refl),
    )
