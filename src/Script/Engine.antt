-- ===== src/Script/Engine.antt =====
-- The state of internal/script/scriptengine.go and its stack operations. A Go method that returns
-- `false` is `err script_failed`: the engine gives up, and nothing reads its state any more.
pub mod Opcode
pub mod CheckSig
pub mod Locktime
pub mod Witness
pub mod Execute
pub mod Fuel
pub mod KeyHash
pub mod PayToPubKeyHash
pub mod PayToWitnessPubKeyHash
pub mod Timelocks
pub mod MultiSig
pub mod Divergence
pub mod Arithmetic
pub mod Branches
use go_bitcoin.Base.{ℕ, ◌+◌, Bool, true, false, ◌&&◌, List, [], ◌∷◌, ◌++◌, ◌==◌}
use go_bitcoin.Base.{Result, ok, err, ◌>>=◌, script_failed}
use go_bitcoin.Script.Command.{ScriptCommand, Script, data_command}

-- The tops of `stack` and `altstack` are their heads: the Go slices, last element first.
pub record ScriptEngine : Type 0 where
  pub stack : List ScriptCommand
  pub altstack : List ScriptCommand
  pub commands : Script
  pub pc : ℕ
  pub z : List ℕ
  pub witness : List (List ℕ)
  pub locktime : ℕ
  pub sequence : ℕ

abbrev pub failed {ℓ} : {A : Type ℓ} → Result A
failed = err script_failed

unfoldable pub new_script_engine : Script → ScriptEngine
new_script_engine s = record {
  stack = [];
  altstack = [];
  commands = s;
  pc = 0;
  z = [];
  witness = [];
  locktime = 0;
  sequence = 0;
}

unfoldable pub with_locktime : ℕ → ScriptEngine → ScriptEngine
with_locktime l se = record se { locktime = l }

unfoldable pub with_sequence : ℕ → ScriptEngine → ScriptEngine
with_sequence s se = record se { sequence = s }

unfoldable pub with_witness : List (List ℕ) → ScriptEngine → ScriptEngine
with_witness w se = record se { witness = w }

pop_stack : List ScriptCommand → ScriptEngine → Result (ScriptCommand × ScriptEngine)
pop_stack [] se = failed
pop_stack (top ∷ below) se = ok (top, record se { stack = below })

unfoldable pub pop : ScriptEngine → Result (ScriptCommand × ScriptEngine)
unfolding pop_stack
pop se = pop_stack se.stack se

peek_stack : List ScriptCommand → Result ScriptCommand
peek_stack [] = failed
peek_stack (top ∷ below) = ok top

unfoldable pub peek : ScriptEngine → Result ScriptCommand
unfolding peek_stack
peek se = peek_stack se.stack

unfoldable pub push : ScriptCommand → ScriptEngine → ScriptEngine
push cmd se = record se { stack = cmd ∷ se.stack }

unfoldable pub push_data : List ℕ → ScriptEngine → ScriptEngine
push_data d se = record se { stack = data_command d ∷ se.stack }

unfoldable pub is_all_zeros : List ℕ → Bool
is_all_zeros [] = true
is_all_zeros (b ∷ bs) = b == 0 && is_all_zeros bs
