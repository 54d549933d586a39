-- ===== src/Transactions/SegwitHash.antt =====
-- hashPrevOuts, hashSequence, hashOutputs and SigHashBIP143 of internal/transactions/transaction.go: what
-- the signature of a segwit input signs, with the three digests that are computed once.
pub mod Caches
use go_bitcoin.Base.{ℕ, Option, none, some, List, [], ◌∷◌, ◌++◌, reverse}
use go_bitcoin.Base.{Result, ok, err, panic, out_of_fuel}
use go_bitcoin.Base.Bytes.{le_encode}
use go_bitcoin.Base.Codes.{write_many}
use go_bitcoin.Encoding.Hash.{Hashes, hash256}
use go_bitcoin.Script.Command.{ScriptCommand, Script, p2pkh_script}
use go_bitcoin.Script.Codec
use go_bitcoin.Transactions.TxIn.{TxIn}
use go_bitcoin.Transactions.TxOut
use go_bitcoin.Transactions.Transaction.{Transaction}
use go_bitcoin.Transactions.Fetch.{Explorer, nth, value, script_pub_key}
use go_bitcoin.Transactions.SigHash.{sighash_all}
use go_bitcoin.Transactions.ScriptCode.{script_code}
use go_bitcoin.Transactions.Run.{Run, pure, ask, ◌>>=◌}

unfoldable pub all_prev_outs : List TxIn → List ℕ
all_prev_outs [] = []
all_prev_outs (t ∷ ts) = reverse t.prev_tx ++ (le_encode 4 t.prev_idx ++ all_prev_outs ts)

unfoldable pub all_sequence : List TxIn → List ℕ
all_sequence [] = []
all_sequence (t ∷ ts) = le_encode 4 t.sequence ++ all_sequence ts

-- A nil slice, where bytes are written
abbrev pub or_nil : Option (List ℕ) → List ℕ
or_nil none = []
or_nil (some bs) = bs

module _ (h : Hashes) where
  fill_prev_outs : Option (List ℕ) → Transaction → Transaction
  fill_prev_outs (some digest) t = t
  fill_prev_outs none t = record t {
    cached_hash_prev_outs = some (hash256 h (all_prev_outs t.inputs));
    cached_hash_sequence = some (hash256 h (all_sequence t.inputs));
  }

  unfoldable pub hash_prev_outs : Run (List ℕ)
  unfolding fill_prev_outs
  hash_prev_outs t =
      let t' = fill_prev_outs t.cached_hash_prev_outs t in
      (ok (or_nil t'.cached_hash_prev_outs), t')

  fill_sequence : Option (List ℕ) → Transaction → Transaction
  unfolding hash_prev_outs
  fill_sequence (some digest) t = t
  fill_sequence none t = let (digest, t') = hash_prev_outs t in t'

  unfoldable pub hash_sequence : Run (List ℕ)
  unfolding fill_sequence
  hash_sequence t =
      let t' = fill_sequence t.cached_hash_sequence t in (ok (or_nil t'.cached_hash_sequence), t')

  fill_outputs : Result (List ℕ) → Run (List ℕ)
  fill_outputs (ok bs) t =
      let digest = hash256 h bs in (ok digest, record t { cached_hash_outputs = some digest })
  fill_outputs (err e) t = (err e, t)
  fill_outputs panic t = (panic, t)
  fill_outputs out_of_fuel t = (out_of_fuel, t)

  outputs_digest : Option (List ℕ) → Run (List ℕ)
  unfolding fill_outputs
  outputs_digest (some digest) t = (ok digest, t)
  outputs_digest none t = fill_outputs (write_many TxOut.serialize t.outputs) t

  unfoldable pub hash_outputs : Run (List ℕ)
  unfolding outputs_digest
  hash_outputs t = outputs_digest t.cached_hash_outputs t

module _ (h : Hashes) (explorer : Explorer) where
  unfoldable pub sig_hash_bip143 : ℕ → Option Script → Option Script → Run (List ℕ)
  unfolding hash_prev_outs hash_sequence hash_outputs
  sig_hash_bip143 input_index redeem_script witness_script = do
    txin ← ask λ t. nth t.inputs input_index
    version ← ask λ t. ok (le_encode 4 t.version)
    prev_outs ← hash_prev_outs h
    sequences ← hash_sequence h
    code ← ask (script_code h explorer txin redeem_script witness_script)
    val ← ask λ t. value h explorer txin t.is_testnet
    outs ← hash_outputs h
    locktime ← ask λ t. ok (le_encode 4 t.locktime)
    pure (
        hash256 h (
          version
          ++ (prev_outs
              ++ (sequences
                  ++ (reverse txin.prev_tx
                      ++ (le_encode 4 txin.prev_idx
                          ++ (code
                              ++ (le_encode 8 val
                                  ++ (le_encode 4 txin.sequence
                                      ++ (outs ++ (locktime ++ le_encode 4 sighash_all)))))))))))
