-- ===== src/Script/Command.antt =====
-- Script commands, opcodes and the output templates of internal/script/script.go and
-- internal/script/scriptengine.go.
use go_bitcoin.Base.{ℕ, Bool, true, false, ◌&&◌, List, [], ◌∷◌, ◌++◌, ◌==◌, length}
use go_bitcoin.Script.Opcodes.{op_0, op_dup, op_hash160, op_equal, op_equalverify, op_checksig}

-- `bytes` is the field Data.
pub record ScriptCommand : Type 0 where
  pub opcode : ℕ
  pub bytes : List ℕ
  pub is_data : Bool

-- A Script is its CommandStack.
abbrev pub Script : Type 0
Script = List ScriptCommand

-- The literals ScriptCommand{Data: d, IsData: true} and ScriptCommand{Opcode: o, IsData: false}.
abbrev pub data_command : List ℕ → ScriptCommand
data_command d = record { opcode = 0; bytes = d; is_data = true }

abbrev pub op_command : ℕ → ScriptCommand
op_command o = record { opcode = o; bytes = []; is_data = false }

-- ScriptSig and ScriptPubKey, one behind the other
unfoldable pub combine : Script → Script → Script
combine s script_pub_key = s ++ script_pub_key

-- P2pkhScript, P2shScript, P2wpkhScript and P2wshScript
unfoldable pub p2pkh_script : List ℕ → Script
p2pkh_script h160 =
    op_command op_dup
    ∷ op_command op_hash160
    ∷ data_command h160
    ∷ op_command op_equalverify
    ∷ op_command op_checksig
    ∷ []

unfoldable pub p2sh_script : List ℕ → Script
p2sh_script h160 = op_command op_hash160 ∷ data_command h160 ∷ op_command op_equal ∷ []

unfoldable pub p2wpkh_script : List ℕ → Script
p2wpkh_script h160 = op_command op_0 ∷ data_command h160 ∷ []

unfoldable pub p2wsh_script : List ℕ → Script
p2wsh_script h256 = op_command op_0 ∷ data_command h256 ∷ []

-- The four tests of a script's shape. The lengths that the source tests first are the patterns.
unfoldable pub is_p2wpkh_script_pub_key : Script → Bool
is_p2wpkh_script_pub_key (a ∷ b ∷ []) = a.opcode == op_0 && b.is_data && length b.bytes == 20
is_p2wpkh_script_pub_key _ = false

unfoldable pub is_p2wsh_script_pub_key : Script → Bool
is_p2wsh_script_pub_key (a ∷ b ∷ []) = a.opcode == op_0 && b.is_data && length b.bytes == 32
is_p2wsh_script_pub_key _ = false

unfoldable pub is_p2sh_script_pub_key : Script → Bool
is_p2sh_script_pub_key (a ∷ b ∷ c ∷ []) =
    a.opcode == op_hash160 && b.is_data && length b.bytes == 20 && c.opcode == op_equal
is_p2sh_script_pub_key _ = false

unfoldable pub is_p2pkh_script_pub_key : Script → Bool
is_p2pkh_script_pub_key (a ∷ b ∷ c ∷ d ∷ e ∷ []) =
    a.opcode == op_dup
    && b.opcode == op_hash160
    && c.is_data
    && length c.bytes == 20
    && d.opcode == op_equalverify
    && e.opcode == op_checksig
is_p2pkh_script_pub_key _ = false
