-- ===== src/Transactions/ScriptCode.antt =====
-- The script code that SigHashBIP143 of internal/transactions/transaction.go puts into its digest.
use go_bitcoin.Base.{ℕ, Option, none, some, List, Result, ◌>>=◌}
use go_bitcoin.Encoding.Hash.{Hashes}
use go_bitcoin.Script.Command.{Script, p2pkh_script}
use go_bitcoin.Script.Codec
use go_bitcoin.Transactions.TxIn.{TxIn}
use go_bitcoin.Transactions.Transaction.{Transaction}
use go_bitcoin.Transactions.Fetch.{Explorer, nth, script_pub_key}

-- P2pkhScript of the second command's data
unfoldable pub key_hash_code : Script → Result (List ℕ)
key_hash_code s = do c ← nth s 1; Codec.serialize (p2pkh_script c.bytes)

module _ (h : Hashes) (explorer : Explorer) where
  -- The witness script, or the P2PKH script of the redeem script's or of the output's hash
  unfoldable pub script_code : TxIn → Option Script → Option Script → Transaction → Result (List ℕ)
  unfolding key_hash_code
  script_code txin redeem (some witness_script) t = Codec.serialize witness_script
  script_code txin (some redeem_script) none t = key_hash_code redeem_script
  script_code txin none none t = do
    pk ← script_pub_key h explorer txin t.is_testnet
    key_hash_code pk
