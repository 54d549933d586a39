-- ===== src/Script/Engine/Witness.antt =====
-- P2sh, P2wsh and P2wpkh of internal/script/scriptengine.go: scripts that add commands to the run.
use go_bitcoin.Base.{ℕ, Bool, false, ◌&&◌, List, [], ◌∷◌, ◌++◌}
use go_bitcoin.Base.{◌==◌, if◌then◌else◌, length, bytes_equal}
use go_bitcoin.Base.{Result, ok, err, panic, out_of_fuel, ◌>>=◌}
use go_bitcoin.Base.Bytes.{Reader, bytes_reader, bytes_buffer}
use go_bitcoin.Encoding.VarInt.{encode_var_int}
use go_bitcoin.Encoding.Hash.{Hashes}
use go_bitcoin.Script.Opcodes
use go_bitcoin.Script.Command.{ScriptCommand, Script, p2pkh_script}
use go_bitcoin.Script.Codec.{parse_script}
use go_bitcoin.Script.Engine.{ScriptEngine, failed, push, push_data}
use go_bitcoin.Script.Engine.Opcode.{op_hash160, op_equal_verify}

-- IsP2sh on the commands from the one just fetched on. Where fewer than three are left, the source
-- makes no test.
unfoldable pub is_p2sh : Script → Bool
is_p2sh (a ∷ b ∷ c ∷ more) =
    a.opcode == Opcodes.op_hash160 && length b.bytes == 20 && c.opcode == Opcodes.op_equal
is_p2sh _ = false

-- `if err != nil { return false }`
abbrev or_failed {ℓ κ} : {A : Type ℓ} {B : Type κ} → Result A → (A → Result B) → Result B
or_failed (ok a) k = k a
or_failed (err e) k = failed
or_failed panic k = panic
or_failed out_of_fuel k = out_of_fuel

-- Parses a raw script, with its length put in front, and appends its commands to the run.
unfoldable pub inject : Reader → List ℕ → ScriptEngine → Result ScriptEngine
inject r raw se = or_failed (encode_var_int (length raw)) λ len.
    or_failed (parse_script r (len ++ raw))
      λ (cmds, rest). ok (record se { commands = se.commands ++ cmds })

-- `hash` is the command after OP_HASH160.
unfoldable pub p2sh : Hashes → ScriptCommand → ScriptCommand → ScriptEngine → Result ScriptEngine
unfolding push
p2sh h redeem_script hash se = do
  se1 ← op_hash160 h se
  se2 ← op_equal_verify (push hash se1)
  inject bytes_buffer redeem_script.bytes se2

-- The witness items before the last, pushed in order; the last is the witness script.
unfoldable pub push_witness : List (List ℕ) → ScriptEngine → ScriptEngine
unfolding push_data
push_witness [] se = se
push_witness (w ∷ []) se = se
push_witness (w ∷ v ∷ ws) se = push_witness (v ∷ ws) (push_data w se)

unfoldable pub last_item : List (List ℕ) → Result (List ℕ)
last_item [] = failed
last_item (w ∷ []) = ok w
last_item (w ∷ v ∷ ws) = last_item (v ∷ ws)

unfoldable pub p2wsh : Hashes → ScriptCommand → ScriptEngine → Result ScriptEngine
unfolding push_witness last_item
p2wsh h hash256 se = do
  witness_script ← last_item se.witness
  if bytes_equal (h.sha256 witness_script) hash256.bytes
      then inject bytes_reader witness_script (push_witness se.witness se)
      else failed

push_pair : List (List ℕ) → ScriptEngine → Result ScriptEngine
push_pair (signature ∷ pubkey ∷ []) se = ok (push_data pubkey (push_data signature se))
push_pair _ se = failed

unfoldable pub p2wpkh : ScriptCommand → ScriptEngine → Result ScriptEngine
unfolding push_pair push_data
p2wpkh hash160 se = do
  se' ← push_pair se.witness se
  ok (record se' { commands = se'.commands ++ p2pkh_script hash160.bytes })
