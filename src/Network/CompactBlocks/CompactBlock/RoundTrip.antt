-- ===== src/Network/CompactBlocks/CompactBlock/RoundTrip.antt =====
-- A compact block written and read back.
use go_bitcoin.Base.{
  ℕ, ◌+◌, ◌-◌, ◌*◌, ◌%◌, ◌^◌, ◌≤◌, ◌<◌, List, [], ◌∷◌, ◌++◌, append_assoc, length,
}
use go_bitcoin.Base.{All, ok, ◌≡◌, refl, arith}
use go_bitcoin.Base.Bytes.{Reader, read_full, le_encode, length-le_encode, le_decode-le_encode}
use go_bitcoin.Base.Bytes.Reading.{read_full-append}
use go_bitcoin.Base.Codes.{make-ok, Codes, CodesBefore, Codes-many}
use go_bitcoin.Encoding.VarInt.Shape.{var_int, encode_var_int-eq-var_int, read_var_int-var_int}
use go_bitcoin.Block.Header
use go_bitcoin.Block.Header.{Block, IsHeader}
use go_bitcoin.Block.Header.RoundTrip.{parse_block-serialize}
use go_bitcoin.Transactions.Transaction.RoundTrip.{IsFresh, IsFormed, parse_transaction-Codes}
use go_bitcoin.Network.GetBlockTxn.{no_index}
use go_bitcoin.Network.Reconstruction.{PrefilledTransaction, CompactBlockMessage}
use go_bitcoin.Network.CompactBlocks.CompactBlock.{parse_prefilled, parse_compact_block_message}
use go_bitcoin.Network.CompactBlocks.CompactBlock.{prefilled_bytes, serialize}

-- Indexes in ascending order, from `least` on, that a signed int holds, with transactions that their codec keeps
abbrev pub IsPrefilled : ℕ → List PrefilledTransaction → Type 0
IsPrefilled least [] = Unit
IsPrefilled least (pf ∷ pfs) =
    (least ≤ pf.index)
    × (pf.index < 2 ^ 63)
    × (IsFresh pf.tx × IsFormed pf.tx)
    × IsPrefilled (pf.index + 1) pfs

abbrev gap : ℕ → ℕ → ℕ
gap prev i = (i + 2 ^ 64 - prev + 2 ^ 64 - 1) % 2 ^ 64

gap-lt :
    (prev least i : ℕ)
    → prev < 2 ^ 64
    → (prev + 1) % 2 ^ 64 ≡ least
    → least ≤ i
    → i < 2 ^ 63
    → gap prev i < 2 ^ 64 - 1
gap-lt prev least i h next low high = ground arith

gap_back :
    (prev least i : ℕ)
    → prev < 2 ^ 64
    → (prev + 1) % 2 ^ 64 ≡ least
    → least ≤ i
    → i < 2 ^ 63
    → (prev + gap prev i + 1) % 2 ^ 64 ≡ i
gap_back prev least i h next low high = ground arith

prefilled-Codes :
    (r : Reader) (prev least : ℕ) (pfs : List PrefilledTransaction)
    → prev < 2 ^ 64
    → (prev + 1) % 2 ^ 64 ≡ least
    → IsPrefilled least pfs
    → Codes (parse_prefilled r (length pfs) prev) (prefilled_bytes prev pfs) pfs
unfolding parse_prefilled prefilled_bytes
prefilled-Codes r prev least [] h next up = ([], refl, λ rest. refl)
prefilled-Codes r prev least (pf ∷ pfs) h next (low, high, (fresh, formed), up) =
    let d = gap prev pf.index in
    let d_fits : d < 2 ^ 64 - 1 = gap-lt prev least pf.index h next low high in
    let (bs, written, read) = parse_transaction-Codes r pf.tx fresh formed in
    let (more, written', read') =
      prefilled-Codes r pf.index (pf.index + 1) pfs (omega arith) (omega arith) up in
    (
      var_int d ++ (bs ++ more),
      rw (encode_var_int-eq-var_int d d_fits, written, written') refl,
      (λ rest.
          rw
            (
              append_assoc,
              append_assoc,
              read_var_int-var_int d (bs ++ (more ++ rest)) d_fits,
              read (more ++ rest),
              gap_back prev least pf.index h next low high,
              read' rest,
            )
            refl),
    )

short_ids-Codes :
    (sids : List (List ℕ))
    → All (λ s. length s ≡ 6) sids
    → All (λ s. CodesBefore 0 (read_full 6) (ok s) s) sids
short_ids-Codes [] h = tt
short_ids-Codes (s ∷ sids) (e, h) =
    ((s, refl, λ rest k. read_full-append 6 s rest e), short_ids-Codes sids h)

-- A message with a header and no transaction hashes, a 64-bit nonce, short ids of six bytes and prefilled
-- transactions in ascending order, which the transaction codec keeps, as many of both as can be allocated, is written
-- by Serialize and read back by ParseCompactBlockMessage in front of anything.
pub parse_compact_block_message-serialize :
    (r : Reader) (msg : CompactBlockMessage)
    → IsHeader msg.header
    → msg.header.tx_hashes ≡ []
    → msg.nonce < 2 ^ 64
    → All (λ s. length s ≡ 6) msg.short_ids
    → 6 * length msg.short_ids ≤ 2 ^ 48
    → 16 * length msg.prefilled_txns ≤ 2 ^ 48
    → IsPrefilled 0 msg.prefilled_txns
    → Codes (parse_compact_block_message r) (serialize msg) msg
unfolding parse_compact_block_message serialize
parse_compact_block_message-serialize r msg header no_hashes nonce sized few_ids few_txs up =
    let n = length msg.short_ids in
    let k = length msg.prefilled_txns in
    let n_fits : n < 2 ^ 64 - 1 = omega arith in
    let k_fits : k < 2 ^ 64 - 1 = omega arith in
    let nonce_bytes = le_encode 8 msg.nonce in
    let (ids, ids_written, ids_read) =
      Codes-many 0 (read_full 6) ok msg.short_ids (short_ids-Codes msg.short_ids sized) in
    let (txs, txs_written, txs_read) =
      prefilled-Codes r no_index 0 msg.prefilled_txns (omega arith) (omega arith) up in
    (
      Header.serialize msg.header ++ (nonce_bytes ++ (var_int n ++ (ids ++ (var_int k ++ txs)))),
      rw
          (
            encode_var_int-eq-var_int n n_fits,
            encode_var_int-eq-var_int k k_fits,
            ids_written,
            txs_written,
          )
          refl,
      (λ rest.
          rw
            (
              append_assoc,
              append_assoc,
              append_assoc,
              append_assoc,
              append_assoc,
              parse_block-serialize msg.header
                  (nonce_bytes ++ (var_int n ++ (ids ++ (var_int k ++ (txs ++ rest))))) header,
              read_full-append 8 nonce_bytes (var_int n ++ (ids ++ (var_int k ++ (txs ++ rest))))
                  (length-le_encode 8 msg.nonce),
              read_var_int-var_int n (ids ++ (var_int k ++ (txs ++ rest))) n_fits,
              make-ok 6 n few_ids,
              ids_read (var_int k ++ (txs ++ rest)) (omega arith),
              read_var_int-var_int k (txs ++ rest) k_fits,
              make-ok 16 k few_txs,
              txs_read rest,
              le_decode-le_encode 8 msg.nonce nonce,
              no_hashes,
            )
            refl),
    )
