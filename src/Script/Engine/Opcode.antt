-- ===== src/Script/Engine/Opcode.antt =====
-- The opcodes of internal/script/scriptengine.go that move, compare and compute.
use go_bitcoin.Base.{ℕ, ◌+◌, ◌-◌, ◌*◌, ◌%◌, ◌^◌, not, ◌&&◌, ◌||◌}
use go_bitcoin.Base.{List, [], ◌∷◌, ◌==◌, if◌then◌else◌, drop, bytes_equal}
use go_bitcoin.Base.{Result, ok, ◌>>=◌}
use go_bitcoin.Encoding.Hash.{Hashes, hash256, hash160}
use go_bitcoin.Script.Opcodes
use go_bitcoin.Script.Command.{ScriptCommand, Script}
use go_bitcoin.Script.Num.{encode_num, decode_num}
use go_bitcoin.Script.Engine.{ScriptEngine, failed, pop, peek, push, push_data, is_all_zeros}

unfoldable pub op_dup : ScriptEngine → Result ScriptEngine
unfolding peek push
op_dup se = do top ← peek se; ok (push top se)

op_2dup_stack : List ScriptCommand → ScriptEngine → Result ScriptEngine
op_2dup_stack (first ∷ second ∷ below) se = ok (push first (push second se))
op_2dup_stack _ se = failed

unfoldable pub op_2dup : ScriptEngine → Result ScriptEngine
unfolding op_2dup_stack push
op_2dup se = op_2dup_stack se.stack se

unfoldable pub op_drop : ScriptEngine → Result ScriptEngine
unfolding pop
op_drop se = do (top, se') ← pop se; ok se'

unfoldable pub op_2drop : ScriptEngine → Result ScriptEngine
unfolding op_drop
op_2drop se = do se' ← op_drop se; op_drop se'

unfoldable pub op_swap : ScriptEngine → Result ScriptEngine
unfolding pop push
op_swap se = do (item1, se1) ← pop se; (item2, se2) ← pop se1; ok (push item2 (push item1 se2))

unfoldable pub op_to_alt_stack : ScriptEngine → Result ScriptEngine
unfolding pop
op_to_alt_stack se = do (item, se') ← pop se; ok (record se' { altstack = item ∷ se'.altstack })

from_alt : List ScriptCommand → ScriptEngine → Result ScriptEngine
from_alt [] se = failed
from_alt (item ∷ below) se = ok (push item (record se { altstack = below }))

unfoldable pub op_from_alt_stack : ScriptEngine → Result ScriptEngine
unfolding from_alt push
op_from_alt_stack se = from_alt se.altstack se

module _ (h : Hashes) where
  unfoldable pub op_sha1 : ScriptEngine → Result ScriptEngine
  unfolding pop push_data
  op_sha1 se = do (element, se') ← pop se; ok (push_data (h.sha1 element.bytes) se')

  unfoldable pub op_hash256 : ScriptEngine → Result ScriptEngine
  unfolding pop push_data
  op_hash256 se = do (element, se') ← pop se; ok (push_data (hash256 h element.bytes) se')

  unfoldable pub op_hash160 : ScriptEngine → Result ScriptEngine
  unfolding pop push_data
  op_hash160 se = do (element, se') ← pop se; ok (push_data (hash160 h element.bytes) se')

-- `skipToElseOrEndif` over the commands from `pc` on; the result is the new `pc`.
unfoldable pub skip_from : ℕ → Script → ℕ → ℕ
skip_from depth [] pc = pc
skip_from depth (cmd ∷ cmds) pc =
    let nested = skip_from (depth + 1) cmds (pc + 1) in
    let closed = skip_from (depth - 1) cmds (pc + 1) in
    let next = skip_from depth cmds (pc + 1) in
    if cmd.opcode == Opcodes.op_if || cmd.opcode == Opcodes.op_notif
    then nested
    else if cmd.opcode == Opcodes.op_endif
    then if depth - 1 == 0 then pc + 1 else closed
    else if cmd.opcode == Opcodes.op_else && depth == 1
    then pc + 1
    else next

unfoldable pub skip_to_else_or_endif : ScriptEngine → ScriptEngine
unfolding skip_from
skip_to_else_or_endif se = record se { pc = skip_from 1 (drop se.pc se.commands) se.pc }

unfoldable pub op_if : ScriptEngine → Result ScriptEngine
unfolding pop is_all_zeros skip_to_else_or_endif
op_if se = do
  (condition, se') ← pop se
  let is_true = not (is_all_zeros condition.bytes)
  ok (if not is_true then skip_to_else_or_endif se' else se')

unfoldable pub op_not_if : ScriptEngine → Result ScriptEngine
unfolding pop is_all_zeros skip_to_else_or_endif
op_not_if se = do
  (condition, se') ← pop se
  let is_false = is_all_zeros condition.bytes
  ok (if not is_false then skip_to_else_or_endif se' else se')

unfoldable pub op_equal : ScriptEngine → Result ScriptEngine
unfolding pop push_data bytes_equal
op_equal se = do
  (item1, se1) ← pop se
  (item2, se2) ← pop se1
  ok (push_data (if bytes_equal item1.bytes item2.bytes then 0x01 ∷ [] else 0x00 ∷ []) se2)

unfoldable pub op_verify : ScriptEngine → Result ScriptEngine
unfolding pop is_all_zeros
op_verify se = do (item, se') ← pop se; if is_all_zeros item.bytes then failed else ok se'

unfoldable pub op_equal_verify : ScriptEngine → Result ScriptEngine
unfolding op_equal op_verify
op_equal_verify se = do se' ← op_equal se; op_verify se'

-- Two numbers off the stack, the result of an int64 operation on their bit patterns onto it. The
-- operation's first argument is the top of the stack.
unfoldable pub arithmetic : (ℕ → ℕ → ℕ) → ScriptEngine → Result ScriptEngine
unfolding pop push_data
arithmetic f se = do
  (a, se1) ← pop se
  (b, se2) ← pop se1
  result ← encode_num (f (decode_num a.bytes) (decode_num b.bytes))
  ok (push_data result se2)

unfoldable pub op_add : ScriptEngine → Result ScriptEngine
unfolding arithmetic
op_add = arithmetic (λ a b. (a + b) % 2 ^ 64)

unfoldable pub op_sub : ScriptEngine → Result ScriptEngine
unfolding arithmetic
op_sub = arithmetic (λ a b. (a + 2 ^ 64 - b) % 2 ^ 64)

unfoldable pub op_mul : ScriptEngine → Result ScriptEngine
unfolding arithmetic
op_mul = arithmetic (λ a b. a * b % 2 ^ 64)

unfoldable pub op_not : ScriptEngine → Result ScriptEngine
unfolding pop push_data
op_not se = do
  (item, se') ← pop se
  result ← encode_num (if decode_num item.bytes == 0 then 1 else 0)
  ok (push_data result se')
