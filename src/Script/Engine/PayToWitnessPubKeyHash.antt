-- ===== src/Script/Engine/PayToWitnessPubKeyHash.antt =====
-- What the engine answers on a P2WPKH spend.
use go_bitcoin.Base.{ℕ, ◌≤◌, Bool, ◌&&◌, List, [], ◌∷◌, length, bytes_equal}
use go_bitcoin.Base.{ok, ◌≡◌, refl, arith}
use go_bitcoin.Base.BigInt.{set_bytes}
use go_bitcoin.Encoding.Hash.{hash160}
use go_bitcoin.Script.Opcodes
use go_bitcoin.Script.Command.{Script, data_command, op_command, p2pkh_script, p2wpkh_script}
use go_bitcoin.Script.Engine.{ScriptEngine}
use go_bitcoin.Script.Engine.{new_script_engine, with_witness, with_locktime, with_sequence}
use go_bitcoin.Script.Engine.CheckSig.{Crypto, check_sig_helper}
use go_bitcoin.Script.Engine.Witness.{is_p2sh, p2wpkh}
use go_bitcoin.Script.Engine.KeyHash.{running, execute_loop-key_hash}
use go_bitcoin.Script.Engine.Fuel.{execute-more_fuel}
use go_bitcoin.Script.Engine.Execute.{step_from, execute_command, execute_loop}
use go_bitcoin.Script.Engine.Execute.{evaluate_with_context}

module _ (c : Crypto) (sig pubkey h : List ℕ) (z : List ℕ) (locktime sequence : ℕ) where
  -- The output's two commands, and then those of the P2PKH output that P2wpkh appends.
  abbrev at : Script → ℕ → List (List ℕ) → ScriptEngine
  at cmds pc stack = running z (sig ∷ pubkey ∷ []) locktime sequence cmds pc stack

  abbrev output : Script
  output = op_command Opcodes.op_0 ∷ data_command h ∷ []

  abbrev extended : Script
  extended = op_command Opcodes.op_0 ∷ data_command h ∷ p2pkh_script h

  step-zero : step_from c output (at output 0 []) ≡ ok (at output 1 ([] ∷ []))
  unfolding step_from is_p2sh execute_command
  step-zero = refl

  step-hash :
      length h ≡ 20
      → step_from c (data_command h ∷ []) (at output 1 ([] ∷ []))
        ≡ ok (at extended 2 (pubkey ∷ sig ∷ []))
  unfolding step_from is_p2sh p2wpkh
  step-hash twenty = ground arith

  evaluate-p2wpkh_exactly :
      (valid : Bool)
      → length h ≡ 20
      → 1 ≤ length sig
      → check_sig_helper c (data_command pubkey) (data_command sig) (set_bytes z) ≡ ok valid
      → evaluate_with_context c 8 (p2wpkh_script h) z (sig ∷ pubkey ∷ []) locktime sequence
        ≡ ok (bytes_equal h (hash160 c.hashes pubkey) && valid)
  unfolding evaluate_with_context execute_loop p2wpkh_script
  evaluate-p2wpkh_exactly valid twenty long check =
      rw (step-zero, step-hash twenty)
        (execute_loop-key_hash c sig pubkey h z (sig ∷ pubkey ∷ []) locktime sequence
          (op_command Opcodes.op_0) (data_command h) valid long check)

  -- On a P2WPKH output with a hash of 20 bytes and a witness of a signature and a public key, the engine
  -- ends, after at most eight rounds, and answers true exactly when the public key has the wanted hash
  -- and the check is passed, where the signature has a byte and its check gives a verdict; the
  -- ScriptSig is empty.
  pub evaluate-p2wpkh :
      (fuel : ℕ) (valid : Bool)
      → 8 ≤ fuel
      → length h ≡ 20
      → 1 ≤ length sig
      → check_sig_helper c (data_command pubkey) (data_command sig) (set_bytes z) ≡ ok valid
      → evaluate_with_context c fuel (p2wpkh_script h) z (sig ∷ pubkey ∷ []) locktime sequence
        ≡ ok (bytes_equal h (hash160 c.hashes pubkey) && valid)
  unfolding evaluate_with_context
  evaluate-p2wpkh fuel valid enough twenty long check =
      let start = new_script_engine (p2wpkh_script h) in
      let given =
        with_sequence sequence (with_locktime locktime (with_witness (sig ∷ pubkey ∷ []) start)) in
      execute-more_fuel c 8 fuel z given enough (evaluate-p2wpkh_exactly valid twenty long check)
