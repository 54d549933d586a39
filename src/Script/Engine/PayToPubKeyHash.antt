-- ===== src/Script/Engine/PayToPubKeyHash.antt =====
-- What the engine answers on a P2PKH spend.
use go_bitcoin.Base.{ℕ, ◌≤◌, Bool, ◌&&◌, List, [], ◌∷◌, length, bytes_equal}
use go_bitcoin.Base.{ok, ◌≡◌, refl, arith}
use go_bitcoin.Base.BigInt.{set_bytes}
use go_bitcoin.Encoding.Hash.{hash160}
use go_bitcoin.Script.Command.{Script, data_command, p2pkh_script}
use go_bitcoin.Script.Engine.{ScriptEngine}
use go_bitcoin.Script.Engine.CheckSig.{Crypto, check_sig_helper}
use go_bitcoin.Script.Engine.Witness.{is_p2sh}
use go_bitcoin.Script.Engine.KeyHash.{running, execute_loop-key_hash}
use go_bitcoin.Script.Engine.Fuel.{evaluate-more_fuel}
use go_bitcoin.Script.Engine.Execute.{step_from, execute_loop, evaluate}

module _ (c : Crypto) (sig pubkey h : List ℕ) (z : List ℕ) where
  -- ScriptSig and ScriptPubKey of a P2PKH spend, combined.
  abbrev spend : Script
  spend = data_command sig ∷ data_command pubkey ∷ p2pkh_script h

  abbrev at : ℕ → List (List ℕ) → ScriptEngine
  at pc stack = running z [] 0 0 spend pc stack

  step-sig : step_from c spend (at 0 []) ≡ ok (at 1 (sig ∷ []))
  unfolding step_from is_p2sh p2pkh_script
  step-sig = refl

  -- A signature with a byte keeps the two items from being taken for a witness program.
  step-pubkey :
      1 ≤ length sig
      → step_from c (data_command pubkey ∷ p2pkh_script h) (at 1 (sig ∷ []))
        ≡ ok (at 2 (pubkey ∷ sig ∷ []))
  unfolding step_from is_p2sh p2pkh_script
  step-pubkey long = ground arith

  evaluate-p2pkh_exactly :
      (valid : Bool)
      → 1 ≤ length sig
      → check_sig_helper c (data_command pubkey) (data_command sig) (set_bytes z) ≡ ok valid
      → evaluate c 8 spend z ≡ ok (bytes_equal h (hash160 c.hashes pubkey) && valid)
  unfolding evaluate execute_loop p2pkh_script
  evaluate-p2pkh_exactly valid long check =
      rw (step-sig, step-pubkey long)
        (execute_loop-key_hash c sig pubkey h z [] 0 0 (data_command sig) (data_command pubkey)
          valid long check)

  -- On a P2PKH spend whose signature has a byte and whose signature check gives a verdict, the
  -- engine ends, after at most eight rounds, and answers true exactly when the public key has the
  -- wanted hash and the check is passed.
  pub evaluate-p2pkh :
      (fuel : ℕ) (valid : Bool)
      → 8 ≤ fuel
      → 1 ≤ length sig
      → check_sig_helper c (data_command pubkey) (data_command sig) (set_bytes z) ≡ ok valid
      → evaluate c fuel spend z ≡ ok (bytes_equal h (hash160 c.hashes pubkey) && valid)
  evaluate-p2pkh fuel valid enough long check =
      evaluate-more_fuel c 8 fuel spend z enough (evaluate-p2pkh_exactly valid long check)
