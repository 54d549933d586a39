-- ===== src/Transactions/SigHash.antt =====
-- SigHash of internal/transactions/transaction.go: what the signature of an input in the old form signs.
use go_bitcoin.Base.{ℕ, suc, Bool, false, List, [], ◌∷◌, ◌++◌, ◌==◌, if◌then◌else◌, length}
use go_bitcoin.Base.{Result, ok, err, panic, ◌>>=◌, invalid_input}
use go_bitcoin.Base.Bytes.{bytes_reader, le_encode}
use go_bitcoin.Encoding.VarInt.{encode_var_int}
use go_bitcoin.Encoding.Hash.{Hashes, hash256}
use go_bitcoin.Script.Opcodes
use go_bitcoin.Script.Command.{ScriptCommand, Script}
use go_bitcoin.Script.Codec.{parse_script}
use go_bitcoin.Transactions.TxIn.{TxIn, tx_in}
use go_bitcoin.Transactions.Transaction.{Transaction, new_transaction, serialize}
use go_bitcoin.Transactions.Fetch.{Explorer, nth, script_pub_key}

abbrev pub sighash_all : ℕ
sighash_all = 1

-- IsP2sh on a whole script: the three commands are looked at as far as the test comes, and a command
-- that is not there panics.
is_p2sh_third : Script → Result Bool
is_p2sh_third [] = panic
is_p2sh_third (c ∷ _) = ok (c.opcode == Opcodes.op_equal)

is_p2sh_second : Script → Result Bool
unfolding is_p2sh_third
is_p2sh_second [] = panic
is_p2sh_second (b ∷ more) = if length b.bytes == 20 then is_p2sh_third more else ok false

unfoldable pub is_p2sh_triplet : Script → Result Bool
unfolding is_p2sh_second
is_p2sh_triplet [] = panic
is_p2sh_triplet (a ∷ more) =
    if a.opcode == Opcodes.op_hash160 then is_p2sh_second more else ok false

unfoldable pub last_command : Script → Result ScriptCommand
last_command [] = err invalid_input
last_command (c ∷ []) = ok c
last_command (c ∷ d ∷ more) = last_command (d ∷ more)

-- A raw script, parsed with its length put in front
unfoldable pub parse_raw_script : List ℕ → Result Script
parse_raw_script raw = do
  len ← encode_var_int (length raw)
  (script, rest) ← parse_script bytes_reader (len ++ raw)
  ok script

unfoldable pub redeem_script_of : Script → Result Script
unfolding parse_raw_script last_command
redeem_script_of script_sig = do
  last ← last_command script_sig
  if last.is_data then parse_raw_script last.bytes else err invalid_input

-- The inputs from `i` on, with no script but that of the input that is signed.
unfoldable pub modified_inputs : ℕ → ℕ → Script → List TxIn → List TxIn
modified_inputs i input_index code [] = []
modified_inputs i input_index code (t ∷ ts) =
    tx_in t.prev_tx t.prev_idx (if i == input_index then code else []) t.sequence
    ∷ modified_inputs (suc i) input_index code ts

-- The modified transaction is no segwit transaction.
unfoldable pub modified_transaction : Transaction → ℕ → Script → Transaction
unfolding modified_inputs new_transaction
modified_transaction t input_index code =
    new_transaction t.version (modified_inputs 0 input_index code t.inputs) t.outputs t.locktime
      t.is_testnet false

module _ (h : Hashes) (explorer : Explorer) where
  -- The script of the output that is spent, or the redeem script of a P2SH spend
  unfoldable pub signed_script : Transaction → TxIn → Result Script
  unfolding is_p2sh_triplet redeem_script_of
  signed_script t input = do
    prev_script_pub_key ← script_pub_key h explorer input t.is_testnet
    p2sh ← is_p2sh_triplet prev_script_pub_key
    if p2sh then redeem_script_of input.script_sig else ok prev_script_pub_key

  unfoldable pub sig_hash : Transaction → ℕ → Result (List ℕ)
  unfolding signed_script modified_transaction
  sig_hash t input_index = do
    input ← nth t.inputs input_index
    code ← signed_script t input
    serialized ← serialize (modified_transaction t input_index code)
    ok (hash256 h (serialized ++ le_encode 4 sighash_all))
