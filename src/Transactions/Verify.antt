-- ===== src/Transactions/Verify.antt =====
-- Fee, VerifyInput and Verify of internal/transactions/transaction.go.
pub mod Caches
use go_bitcoin.Base.{ℕ, zero, suc, ◌+◌, ◌-◌, ◌%◌, ◌^◌, Bool, true, false, none, some, List, [], ◌∷◌}
use go_bitcoin.Base.{if◌then◌else◌, ltb, leb, length, Result, ok, err, panic, invalid_input}
use go_bitcoin.Script.Command.{
  Script, combine, is_p2wpkh_script_pub_key, is_p2wsh_script_pub_key, is_p2sh_script_pub_key,
}
use go_bitcoin.Script.Engine.CheckSig.{Crypto}
use go_bitcoin.Script.Engine.Execute.{evaluate_with_context}
use go_bitcoin.Transactions.TxIn.{TxIn}
use go_bitcoin.Transactions.TxOut.{TxOut}
use go_bitcoin.Transactions.Transaction.{Transaction}
use go_bitcoin.Transactions.Fetch.{Explorer, nth, script_pub_key}
use go_bitcoin.Transactions.Fee.{fee}
use go_bitcoin.Transactions.SigHash.{sig_hash, last_command, parse_raw_script}
use go_bitcoin.Transactions.SegwitHash.{sig_hash_bip143}
use go_bitcoin.Transactions.Run.{Run, pure, ask, ◌>>=◌}

-- The last item of a witness; an empty one panics.
unfoldable pub last_item : List (List ℕ) → Result (List ℕ)
last_item [] = panic
last_item (item ∷ []) = ok item
last_item (item ∷ next ∷ more) = last_item (next ∷ more)

unfoldable pub checked_input : List TxIn → ℕ → Result TxIn
unfolding nth
checked_input ts i = if leb (length ts) i then err invalid_input else nth ts i

module _ (c : Crypto) (explorer : Explorer) where
  -- The digest that is signed, and the witness that the engine is given
  abbrev pub Signed : Type 0
  Signed = List ℕ × List (List ℕ)

  with_witness_script : ℕ → TxIn → Run Signed
  unfolding last_item parse_raw_script
  with_witness_script i input = do
    command ← ask λ t. last_item input.witness
    witness_script ← ask λ t. parse_raw_script command
    z ← sig_hash_bip143 c.hashes explorer i none (some witness_script)
    pure (z, input.witness)

  with_redeem_script : ℕ → TxIn → Run Signed
  unfolding with_witness_script last_command parse_raw_script
  with_redeem_script i input = do
    command ← ask λ t. last_command input.script_sig
    redeem_script ← ask λ t. parse_raw_script command.bytes
    (if is_p2wpkh_script_pub_key redeem_script
        then (do
          z ← sig_hash_bip143 c.hashes explorer i (some redeem_script) none
          pure (z, input.witness))
        else if is_p2wsh_script_pub_key redeem_script
        then with_witness_script i input
        else (do z ← sig_hash_bip143 c.hashes explorer i (some redeem_script) none; pure (z, [])))

  unfoldable pub signed : ℕ → TxIn → Script → Run Signed
  unfolding with_redeem_script
  signed i input spk =
      if is_p2wpkh_script_pub_key spk
      then (do z ← sig_hash_bip143 c.hashes explorer i none none; pure (z, input.witness))
      else if is_p2sh_script_pub_key spk
      then with_redeem_script i input
      else if is_p2wsh_script_pub_key spk
      then with_witness_script i input
      else (do z ← ask λ t. sig_hash c.hashes explorer t i; pure (z, []))

  -- The fuel is that of the engine, which is given neither the locktime nor the sequence.
  unfoldable pub verify_input : ℕ → ℕ → Run Bool
  unfolding checked_input signed combine
  verify_input fuel i = do
    input ← ask λ t. checked_input t.inputs i
    spk ← ask λ t. script_pub_key c.hashes explorer input t.is_testnet
    (z, witness) ← signed i input spk
    ask λ t. evaluate_with_context c fuel (combine input.script_sig spk) z witness 0 0

  -- The inputs from `i` on; the first one that is not valid ends the loop.
  unfoldable pub verify_inputs : ℕ → ℕ → List TxIn → Run Bool
  unfolding verify_input
  verify_inputs fuel i [] = pure true
  verify_inputs fuel i (t ∷ ts) = do
    valid ← verify_input fuel i
    (let others = verify_inputs fuel (suc i) ts in if valid then others else pure false)

  unfoldable pub verify : ℕ → Run Bool
  unfolding verify_inputs
  verify fuel = do
    paid ← ask λ t. fee c.hashes explorer t t.is_testnet
    inputs ← ask λ t. ok t.inputs
    verify_inputs fuel 0 inputs
