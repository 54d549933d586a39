-- ===== src/Network/CompactBlocks/CompactBlock.antt =====
-- CompactBlockMessage of internal/network/compact.go as bytes: the prefilled transactions come by differences of
-- their indexes. An int is its bit pattern below 2^64.
pub mod RoundTrip
use go_bitcoin.Base.{
  ℕ, zero, suc, ◌+◌, ◌-◌, ◌%◌, ◌^◌, List, [], ◌∷◌, ◌++◌, length, Result, ok, ◌>>=◌,
}
use go_bitcoin.Base.Bytes.{Reader, read_full, le_encode, le_decode}
use go_bitcoin.Base.Codes.{make, ◌>>◌, parse_many, write_many}
use go_bitcoin.Encoding.VarInt.{read_var_int, encode_var_int}
use go_bitcoin.Block.Header
use go_bitcoin.Block.Header.{parse_block}
use go_bitcoin.Transactions.Transaction
use go_bitcoin.Transactions.Transaction.{parse_transaction}
use go_bitcoin.Network.GetBlockTxn.{no_index}
use go_bitcoin.Network.Reconstruction.{PrefilledTransaction, CompactBlockMessage}

-- The loop of the parser for `n` prefilled transactions behind the index `prev`
unfoldable pub parse_prefilled :
    Reader → ℕ → ℕ → List ℕ → Result (List PrefilledTransaction × List ℕ)
parse_prefilled r zero prev bs = ok ([], bs)
parse_prefilled r (suc n) prev bs = do
  (diff, bs1) ← read_var_int bs
  let actual = (prev + diff + 1) % 2 ^ 64
  (tx, bs2) ← parse_transaction r bs1
  (more, rest) ← parse_prefilled r n actual bs2
  ok (record { index = actual; tx = tx } ∷ more, rest)

unfoldable pub parse_compact_block_message : Reader → List ℕ → Result (CompactBlockMessage × List ℕ)
unfolding parse_prefilled
parse_compact_block_message r bs = do
  (header, bs1) ← parse_block bs
  (nonce_bytes, bs2) ← read_full 8 bs1
  (sid_len, bs3) ← read_var_int bs2
  make 6 sid_len
  (short_ids, bs4) ← parse_many (read_full 6) sid_len bs3
  (pf_txns_len, bs5) ← read_var_int bs4
  make 16 pf_txns_len
  (pf_txns, rest) ← parse_prefilled r pf_txns_len no_index bs5
  ok (
    record {
      header = header;
      nonce = le_decode nonce_bytes;
      short_ids = short_ids;
      prefilled_txns = pf_txns;
    },
    rest,
  )

unfoldable pub prefilled_bytes : ℕ → List PrefilledTransaction → Result (List ℕ)
prefilled_bytes prev [] = ok []
prefilled_bytes prev (pf ∷ pfs) = do
  diff_bytes ← encode_var_int ((pf.index + 2 ^ 64 - prev + 2 ^ 64 - 1) % 2 ^ 64)
  tx_bytes ← Transaction.serialize pf.tx
  rest ← prefilled_bytes pf.index pfs
  ok (diff_bytes ++ (tx_bytes ++ rest))

unfoldable pub serialize : CompactBlockMessage → Result (List ℕ)
unfolding prefilled_bytes
serialize cb = do
  short_id_len ← encode_var_int (length cb.short_ids)
  sids ← write_many ok cb.short_ids
  prefilled_len ← encode_var_int (length cb.prefilled_txns)
  prefilled ← prefilled_bytes no_index cb.prefilled_txns
  ok (
      Header.serialize cb.header
      ++ (le_encode 8 cb.nonce ++ (short_id_len ++ (sids ++ (prefilled_len ++ prefilled)))))
