-- ===== src/Script/Engine/Execute.antt =====
-- ExecuteCommand and the main loop of internal/script/scriptengine.go, and Evaluate and
-- EvaluateWithContext of internal/script/script.go.
use go_bitcoin.Base.{ℕ, zero, suc, ◌+◌, ◌-◌, Bool, false, not, ◌&&◌}
use go_bitcoin.Base.{List, [], ◌∷◌, ltb, leb, ◌==◌, if◌then◌else◌, length, drop}
use go_bitcoin.Base.{Result, ok, err, panic, out_of_fuel, ◌>>=◌}
use go_bitcoin.Script.Opcodes
use go_bitcoin.Script.Command.{ScriptCommand, Script}
use go_bitcoin.Script.Num.{encode_num}
use go_bitcoin.Script.Engine.{ScriptEngine, failed, new_script_engine, with_locktime, with_sequence}
use go_bitcoin.Script.Engine.{with_witness, peek, push, push_data, is_all_zeros}
use go_bitcoin.Script.Engine.Opcode.{
  op_dup, op_2dup, op_drop, op_2drop, op_swap, op_to_alt_stack, op_from_alt_stack, op_sha1,
  op_hash256, op_hash160, op_if, op_not_if, op_equal, op_verify, op_equal_verify, op_add, op_sub,
  op_mul, op_not,
}
use go_bitcoin.Script.Engine.CheckSig.{Crypto, op_check_sig, op_check_sig_verify}
use go_bitcoin.Script.Engine.CheckSig.{op_check_multi_sig}
use go_bitcoin.Script.Engine.Locktime.{op_check_locktime_verify, op_check_sequence_verify}
use go_bitcoin.Script.Engine.Witness.{is_p2sh, p2sh, p2wsh, p2wpkh}

-- OP_1 to OP_16
unfoldable pub push_small : ℕ → ScriptEngine → Result ScriptEngine
unfolding push_data
push_small opcode se = do num ← encode_num (opcode - 0x50); ok (push_data num se)

module _ (c : Crypto) where
  unfoldable pub execute_command : ScriptCommand → ScriptEngine → Result ScriptEngine
  unfolding push_data push_small
  execute_command cmd se =
      let o = cmd.opcode in
      if o == Opcodes.op_0
      then ok (push_data [] se)
      else if o == Opcodes.op_dup
      then op_dup se
      else if o == Opcodes.op_2dup
      then op_2dup se
      else if leb Opcodes.op_1 o && leb o Opcodes.op_16
      then push_small o se
      else if o == Opcodes.op_add
      then op_add se
      else if o == Opcodes.op_sub
      then op_sub se
      else if o == Opcodes.op_mul
      then op_mul se
      else if o == Opcodes.op_sha1
      then op_sha1 c.hashes se
      else if o == Opcodes.op_hash256
      then op_hash256 c.hashes se
      else if o == Opcodes.op_hash160
      then op_hash160 c.hashes se
      else if o == Opcodes.op_toalstack
      then op_to_alt_stack se
      else if o == Opcodes.op_fromaltstack
      then op_from_alt_stack se
      else if o == Opcodes.op_drop
      then op_drop se
      else if o == Opcodes.op_2drop
      then op_2drop se
      else if o == Opcodes.op_if
      then op_if se
      else if o == Opcodes.op_notif
      then op_not_if se
      else if o == Opcodes.op_checksig
      then op_check_sig c se
      else if o == Opcodes.op_checkmultisig
      then op_check_multi_sig c se
      else if o == Opcodes.op_checksigverify
      then op_check_sig_verify c se
      else if o == Opcodes.op_not
      then op_not se
      else if o == Opcodes.op_equal
      then op_equal se
      else if o == Opcodes.op_equalverify
      then op_equal_verify se
      else if o == Opcodes.op_verify
      then op_verify se
      else if o == Opcodes.op_swap
      then op_swap se
      else if o == Opcodes.op_checklocktimeverify
      then op_check_locktime_verify se
      else if o == Opcodes.op_checksequenceverify
      then op_check_sequence_verify se
      else failed

  -- The test for a witness program after each command: a stack of two, nothing at the bottom and 20
  -- or 32 bytes on top. Both are popped.
  unfoldable pub witness_program : List ScriptCommand → ScriptEngine → Result ScriptEngine
  witness_program (top ∷ bottom ∷ []) se =
      let popped = record se { stack = [] } in
      if length bottom.bytes == 0 && length top.bytes == 20
      then p2wpkh top popped
      else if length bottom.bytes == 0 && length top.bytes == 32
      then p2wsh c.hashes top popped
      else ok se
  witness_program _ se = ok se

  -- `hash := se.commands[se.pc]`, in front of the commands from there on
  p2sh_of : Script → ScriptCommand → ScriptEngine → Result ScriptEngine
  p2sh_of [] redeem_script se = panic
  p2sh_of (hash ∷ more) redeem_script se = p2sh c.hashes redeem_script hash se

  -- One round of the loop; the list holds the commands from `pc` on.
  unfoldable pub step_from : Script → ScriptEngine → Result ScriptEngine
  unfolding witness_program p2sh_of push
  step_from [] se = panic
  step_from (cmd ∷ rest) se =
      let se1 = record se { pc = se.pc + 1 } in
      if is_p2sh (cmd ∷ rest)
      then (do
        redeem_script ← peek se1
        se2 ← p2sh_of rest redeem_script se1
        ok (record se2 { pc = se2.pc + 2 }))
      else (do
        se2 ← if cmd.is_data then ok (push cmd se1) else execute_command cmd se1
        witness_program se2.stack se2)

  -- `for se.pc < len(se.commands)`; commands may be added on the way, so the fuel is the caller's.
  unfoldable pub execute_loop : ℕ → ScriptEngine → Result ScriptEngine
  execute_loop zero se = out_of_fuel
  execute_loop (suc fuel) se =
      if ltb se.pc (length se.commands)
      then (do se' ← step_from (drop se.pc se.commands) se; execute_loop fuel se')
      else ok se

verdict_of : List ScriptCommand → Bool
verdict_of [] = false
verdict_of (top ∷ below) = not (is_all_zeros top.bytes)

unfoldable pub verify_final_stack : ScriptEngine → Bool
unfolding verdict_of is_all_zeros
verify_final_stack se = verdict_of se.stack

-- A `return false` on the way is the answer `false`.
abbrev pub as_bool : Result Bool → Result Bool
as_bool (ok b) = ok b
as_bool (err e) = ok false
as_bool panic = panic
as_bool out_of_fuel = out_of_fuel

module _ (c : Crypto) where
  unfoldable pub execute : ℕ → List ℕ → ScriptEngine → Result Bool
  unfolding verify_final_stack
  execute fuel z se =
      as_bool (do se' ← execute_loop c fuel (record se { z = z }); ok (verify_final_stack se'))

  unfoldable pub evaluate : ℕ → Script → List ℕ → Result Bool
  unfolding execute new_script_engine
  evaluate fuel s sighash = execute fuel sighash (new_script_engine s)

  unfoldable pub evaluate_with_context : ℕ → Script → List ℕ → List (List ℕ) → ℕ → ℕ → Result Bool
  unfolding execute new_script_engine with_witness with_locktime with_sequence
  evaluate_with_context fuel s sighash witness locktime sequence =
      execute fuel sighash (
        with_sequence sequence
          (with_locktime locktime (with_witness witness (new_script_engine s))))
