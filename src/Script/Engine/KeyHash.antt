-- ===== src/Script/Engine/KeyHash.antt =====
-- The rounds of the engine on the commands of a P2PKH output, behind two commands that are done with.
-- P2PKH and P2WPKH spends both come to them.
use go_bitcoin.Base.{ℕ, ◌≤◌, Bool, true, false, not, ◌&&◌}
use go_bitcoin.Base.{List, [], ◌∷◌, map, if◌then◌else◌, length, drop, bytes_equal}
use go_bitcoin.Base.{Result, ok, ◌>>=◌, ◌≡◌, refl, arith}
use go_bitcoin.Base.{Bool-cases, inl, inr}
use go_bitcoin.Base.BigInt.{set_bytes}
use go_bitcoin.Encoding.Hash.{hash160}
use go_bitcoin.Script.Command.{ScriptCommand, Script, data_command, p2pkh_script}
use go_bitcoin.Script.Engine.{ScriptEngine, failed, is_all_zeros}
use go_bitcoin.Script.Engine.CheckSig.{Crypto, check_sig_helper, op_check_sig}
use go_bitcoin.Script.Engine.Witness.{is_p2sh}
use go_bitcoin.Script.Engine.Opcode.{op_dup, op_hash160, op_equal_verify}
use go_bitcoin.Script.Engine.Execute.{step_from, execute_command, execute_loop, as_bool}
use go_bitcoin.Script.Engine.Execute.{verify_final_stack}

-- An engine in the middle of such a run.
abbrev pub running : List ℕ → List (List ℕ) → ℕ → ℕ → Script → ℕ → List (List ℕ) → ScriptEngine
running z witness locktime sequence cmds pc stack = record {
  stack = map data_command stack;
  altstack = [];
  commands = cmds;
  pc = pc;
  z = z;
  witness = witness;
  locktime = locktime;
  sequence = sequence;
}

module _ (c : Crypto) (sig pubkey h : List ℕ) (z : List ℕ) (witness : List (List ℕ))
    (locktime sequence : ℕ) (done1 done2 : ScriptCommand) where
  abbrev cmds : Script
  cmds = done1 ∷ done2 ∷ p2pkh_script h

  abbrev at : ℕ → List (List ℕ) → ScriptEngine
  at pc stack = running z witness locktime sequence cmds pc stack

  abbrev step : ℕ → List (List ℕ) → Result ScriptEngine
  step pc stack = step_from c (drop pc cmds) (at pc stack)

  step-dup : step 2 (pubkey ∷ sig ∷ []) ≡ ok (at 3 (pubkey ∷ pubkey ∷ sig ∷ []))
  unfolding step_from is_p2sh p2pkh_script execute_command op_dup
  step-dup = refl

  step-hash160 :
      step 3 (pubkey ∷ pubkey ∷ sig ∷ []) ≡ ok (at 4 (hash160 c.hashes pubkey ∷ pubkey ∷ sig ∷ []))
  unfolding step_from is_p2sh p2pkh_script execute_command op_hash160
  step-hash160 = ground arith

  step-h :
      step 4 (hash160 c.hashes pubkey ∷ pubkey ∷ sig ∷ [])
      ≡ ok (at 5 (h ∷ hash160 c.hashes pubkey ∷ pubkey ∷ sig ∷ []))
  unfolding step_from is_p2sh p2pkh_script
  step-h = refl

  step-equalverify :
      1 ≤ length sig
      → step 5 (h ∷ hash160 c.hashes pubkey ∷ pubkey ∷ sig ∷ []) ≡ (
          if bytes_equal h (hash160 c.hashes pubkey) then ok (at 6 (pubkey ∷ sig ∷ [])) else failed)
  unfolding step_from is_p2sh p2pkh_script execute_command op_equal_verify
  step-equalverify long = elim (Bool-cases (bytes_equal h (hash160 c.hashes pubkey))) [
    | inl same ↦ rw same (ground arith)
    | inr other ↦ rw other
  ]

  step-checksig :
      (valid : Bool)
      → check_sig_helper c (data_command pubkey) (data_command sig) (set_bytes z) ≡ ok valid
      → step 6 (pubkey ∷ sig ∷ []) ≡ ok (at 7 ((if valid then 0x01 ∷ [] else []) ∷ []))
  unfolding step_from is_p2sh p2pkh_script execute_command op_check_sig
  step-checksig valid check = rw check

  -- With the public key and the signature on the stack, six rounds are enough for the verdict.
  pub execute_loop-key_hash :
      (valid : Bool)
      → 1 ≤ length sig
      → check_sig_helper c (data_command pubkey) (data_command sig) (set_bytes z) ≡ ok valid
      → as_bool (execute_loop c 6 (at 2 (pubkey ∷ sig ∷ [])) >>= λ se. ok (verify_final_stack se))
        ≡ ok (bytes_equal h (hash160 c.hashes pubkey) && valid)
  unfolding p2pkh_script execute_loop verify_final_stack is_all_zeros
  execute_loop-key_hash valid long check =
      rw (step-dup, step-hash160, step-h, step-equalverify long)
        (elim (Bool-cases (bytes_equal h (hash160 c.hashes pubkey))) [
          | inl same ↦ rw (same, step-checksig valid check) (verdict valid)
          | inr other ↦ rw other
        ])
    where
      verdict :
          (valid : Bool) → ok (not (is_all_zeros (if valid then 0x01 ∷ [] else []))) ≡ ok valid
      verdict true = refl
      verdict false = refl
