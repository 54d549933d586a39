-- ===== src/Script/Codec.antt =====
-- ParseScript, ReadScriptBytes, RawBytes and Serialize of internal/script/script.go.
pub mod RoundTrip
pub mod Written
pub mod Consumption
pub mod Total
use go_bitcoin.Base.{ℕ, zero, suc, ◌+◌, ◌%◌, ◌^◌, Bool, ◌&&◌, List, [], ◌∷◌, ◌++◌}
use go_bitcoin.Base.{ltb, leb, ◌==◌, if◌then◌else◌, length}
use go_bitcoin.Base.{Result, ok, err, panic, out_of_fuel, ◌>>=◌, bad_length}
use go_bitcoin.Base.Bytes.{Reader, le_encode, le_decode, read_full, read_exactly}
use go_bitcoin.Encoding.VarInt.{read_var_int, encode_var_int}
use go_bitcoin.Script.Opcodes.{op_pushdata1, op_pushdata2, op_pushdata4}
use go_bitcoin.Script.Command.{ScriptCommand, Script, data_command, op_command}

-- A command, what the loop adds to `count` beside the 1 of the first byte, and the bytes left.
abbrev pub Step : Type 0
Step = ScriptCommand × ℕ × List ℕ

unfoldable pub push_bytes : Reader → ℕ → ℕ → List ℕ → Result Step
push_bytes r prefix n bs = do
  (buf, rest) ← read_exactly r n bs
  ok (data_command buf, n + prefix, rest)

-- OP_PUSHDATA1, -2 and -4: the length stands in `k` bytes.
unfoldable pub push_sized : Reader → ℕ → List ℕ → Result Step
unfolding push_bytes
push_sized r k bs = do (buf, rest) ← read_exactly r k bs; push_bytes r k (le_decode buf) rest

unfoldable pub parse_command : Reader → ℕ → List ℕ → Result Step
unfolding push_bytes push_sized
parse_command r b bs =
    if leb 1 b && leb b 75
    then push_bytes r 0 b bs
    else if b == op_pushdata1
    then push_sized r 1 bs
    else if b == op_pushdata2
    then push_sized r 2 bs
    else if b == op_pushdata4
    then push_sized r 4 bs
    else ok (op_command b, 0, bs)

-- The loop of ParseScript; `len` is the length that stood in front of the script.
unfoldable pub parse_loop : Reader → ℕ → ℕ → ℕ → Script → List ℕ → Result (Script × ℕ × List ℕ)
parse_loop r zero len count cmds bs = out_of_fuel
parse_loop r (suc fuel) len count cmds bs =
    if ltb count len
    then (do
      (buf, rest) ← read_exactly r 1 bs
      (cmd, n, rest') ← parse_command r (le_decode buf) rest
      parse_loop r fuel len (count + 1 + n) (cmds ++ (cmd ∷ [])) rest')
    else ok (cmds, count, bs)

-- Each round takes a byte at least, so one more round than there are bytes is enough.
unfoldable pub parse_script : Reader → List ℕ → Result (Script × List ℕ)
parse_script r bs = do
  (len, rest) ← read_var_int bs
  (cmds, count, rest') ← parse_loop r (suc (length rest)) len 0 [] rest
  if count == len then ok (cmds, rest') else err bad_length

-- `make([]byte, length)` panics where the length is above what the 64-bit run time can allocate.
abbrev pub max_alloc : ℕ
max_alloc = 2 ^ 48

unfoldable pub read_script_bytes : List ℕ → Result (List ℕ × List ℕ)
read_script_bytes bs = do
  (len, rest) ← read_var_int bs
  (if ltb max_alloc len then panic else read_full len rest)

unfoldable pub push_prefix : ℕ → List ℕ
push_prefix n =
    if leb n 75
    then (n % 256) ∷ []
    else if leb n 0xff
    then op_pushdata1 ∷ (n % 256) ∷ []
    else if leb n 0xffff
    then op_pushdata2 ∷ le_encode 2 (n % 2 ^ 16)
    else op_pushdata4 ∷ le_encode 4 (n % 2 ^ 32)

unfoldable pub command_bytes : ScriptCommand → List ℕ
unfolding push_prefix
command_bytes cmd =
    if cmd.is_data then push_prefix (length cmd.bytes) ++ cmd.bytes else cmd.opcode ∷ []

unfoldable pub raw_bytes : Script → List ℕ
unfolding command_bytes
raw_bytes [] = []
raw_bytes (cmd ∷ cmds) = command_bytes cmd ++ raw_bytes cmds

unfoldable pub serialize : Script → Result (List ℕ)
serialize s = do len ← encode_var_int (length (raw_bytes s)); ok (len ++ raw_bytes s)
