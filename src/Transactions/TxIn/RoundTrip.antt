-- ===== src/Transactions/TxIn/RoundTrip.antt =====
-- Inputs that spend an output, written and read back.
use go_bitcoin.Base.{◌^◌, ◌<◌, false, [], ◌++◌, append_assoc, reverse, length}
use go_bitcoin.Base.{◌≡◌, refl, ◌∙◌, arith}
use go_bitcoin.Base.Bytes.{Reader, le_encode, length-le_encode, le_decode-le_encode}
use go_bitcoin.Base.Bytes.Reading.{read_exactly-append}
use go_bitcoin.Base.BigInt.{length-reverse}
use go_bitcoin.Base.Codes.{Codes}
use go_bitcoin.Script.Codec.Written.{IsWritable, parse_script-Codes}
use go_bitcoin.Transactions.TxIn.{TxIn, is_coinbase_input, parse_tx_in, serialize}
use mathlib.Core.List.{reverse-reverse}

-- An input that is no coinbase input, with fields in the ranges of their types.
pub record IsSpending (t : TxIn) : Type 0 where
  pub prev_tx_32 : length t.prev_tx ≡ 32
  pub prev_idx_fits : t.prev_idx < 2 ^ 32
  pub no_coinbase : is_coinbase_input t.prev_tx t.prev_idx ≡ false
  pub script_sig_writable : IsWritable t.script_sig
  pub sequence_fits : t.sequence < 2 ^ 32

-- The witness is no part of an input's bytes.
pub parse_tx_in-Codes :
    (r : Reader) (t : TxIn)
    → IsSpending t
    → Codes (parse_tx_in r) (serialize t) (record t { witness = [] })
unfolding parse_tx_in serialize
parse_tx_in-Codes r t h =
    let (script, written, read) = parse_script-Codes r t.script_sig h.script_sig_writable in
    let hash = reverse t.prev_tx in
    let hash_32 : length hash ≡ 32 = length-reverse t.prev_tx ∙ h.prev_tx_32 in
    (
      hash ++ (le_encode 4 t.prev_idx ++ (script ++ le_encode 4 t.sequence)),
      rw written refl,
      (λ rest.
          rw
            (
              append_assoc,
              append_assoc,
              append_assoc,
              read_exactly-append r 32 hash
                  (le_encode 4 t.prev_idx ++ (script ++ (le_encode 4 t.sequence ++ rest)))
                  (omega arith) hash_32,
              read_exactly-append r 4 (le_encode 4 t.prev_idx)
                  (script ++ (le_encode 4 t.sequence ++ rest)) (omega arith)
                  (length-le_encode 4 t.prev_idx),
              le_decode-le_encode 4 t.prev_idx h.prev_idx_fits,
              reverse-reverse,
              h.no_coinbase,
              read (le_encode 4 t.sequence ++ rest),
              read_exactly-append r 4 (le_encode 4 t.sequence) rest (omega arith)
                  (length-le_encode 4 t.sequence),
              le_decode-le_encode 4 t.sequence h.sequence_fits,
            )
            refl),
    )
