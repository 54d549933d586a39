-- ===== src/Script/Engine/Locktime.antt =====
-- OP_CHECKLOCKTIMEVERIFY (BIP 65) and OP_CHECKSEQUENCEVERIFY (BIP 112) of
-- internal/script/scriptengine.go. Neither changes the engine.
use go_bitcoin.Base.{ℕ, ◌%◌, ◌^◌, Bool, not, bit_and, ltb, leb, ◌==◌, if◌then◌else◌}
use go_bitcoin.Base.{Result, ok, ◌>>=◌}
use go_bitcoin.Script.Num.{decode_num, is_negative}
use go_bitcoin.Script.Engine.{ScriptEngine, failed, peek}

abbrev pub locktime_threshold : ℕ
locktime_threshold = 500000000

abbrev same : Bool → Bool → Bool
same a b = if a then b else not b

unfoldable pub op_check_locktime_verify : ScriptEngine → Result ScriptEngine
unfolding peek
op_check_locktime_verify se = do
  element ← peek se
  let stack_locktime = decode_num element.bytes
  if is_negative stack_locktime
      then failed
      else if se.sequence == 0xffffffff
      then failed
      else let stack_is_timestamp = leb locktime_threshold stack_locktime in
        let tx_is_timestamp = leb locktime_threshold se.locktime in
        if not (same stack_is_timestamp tx_is_timestamp)
        then failed
        else if ltb se.locktime stack_locktime
        then failed
        else ok se

abbrev pub disable_flag : ℕ
disable_flag = 2 ^ 31

abbrev pub type_flag : ℕ
type_flag = 2 ^ 22

unfoldable pub op_check_sequence_verify : ScriptEngine → Result ScriptEngine
unfolding peek
op_check_sequence_verify se = do
  element ← peek se
  let stack_sequence = decode_num element.bytes
  if is_negative stack_sequence
      then failed
      else if not (bit_and (stack_sequence % 2 ^ 32) disable_flag == 0)
      then ok se
      else if not (bit_and se.sequence disable_flag == 0)
      then failed
      else let stack_type = bit_and (stack_sequence % 2 ^ 32) type_flag in
        let sequence_type = bit_and se.sequence type_flag in
        if not (stack_type == sequence_type)
        then failed
        else let stack_value = bit_and (stack_sequence % 2 ^ 32) 0x0000ffff in
          let sequence_value = bit_and se.sequence 0x0000ffff in
          if ltb sequence_value stack_value then failed else ok se
