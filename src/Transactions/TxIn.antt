-- ===== src/Transactions/TxIn.antt =====
-- Transaction inputs, ParseTxIn and TxIn.Serialize of internal/transactions/txinputs.go.
pub mod RoundTrip
use go_bitcoin.Base.{ℕ, ◌+◌, ◌^◌, ◌<◌, Bool, true, false, ◌&&◌, List, [], ◌∷◌, ◌++◌, reverse}
use go_bitcoin.Base.{◌==◌, if◌then◌else◌, length, Result, ok, ◌>>=◌}
use go_bitcoin.Base.Bytes.{Reader, le_encode, le_decode, read_full, read_exactly}
use go_bitcoin.Base.Codes.{make, ◌>>◌}
use go_bitcoin.Encoding.VarInt.{read_var_int}
use go_bitcoin.Script.Command.{Script, data_command}
use go_bitcoin.Script.Codec.{parse_script}
use go_bitcoin.Script.Codec

abbrev pub sequence_final : ℕ
sequence_final = 0xffffffff

abbrev pub coinbase_prevout : ℕ
coinbase_prevout = 0xffffffff

pub record TxIn : Type 0 where
  pub prev_tx : List ℕ
  pub prev_idx : ℕ
  pub script_sig : Script
  pub sequence : ℕ
  pub witness : List (List ℕ)

abbrev pub tx_in : List ℕ → ℕ → Script → ℕ → TxIn
tx_in prev idx sig seq = record {
  prev_tx = prev;
  prev_idx = idx;
  script_sig = sig;
  sequence = seq;
  witness = [];
}

-- NewTxIn
abbrev pub new_tx_in : List ℕ → ℕ → ℕ → TxIn
new_tx_in prev idx seq = tx_in prev idx [] seq

unfoldable pub all_zero : List ℕ → Bool
all_zero [] = true
all_zero (b ∷ bs) = b == 0 && all_zero bs

unfoldable pub is_coinbase_input : List ℕ → ℕ → Bool
unfolding all_zero
is_coinbase_input prev_tx prev_idx = prev_idx == coinbase_prevout && all_zero prev_tx

-- The ScriptSig of a coinbase input: its bytes, unparsed, as one data command, or no command at all.
unfoldable pub coinbase_script : List ℕ → Script
coinbase_script [] = []
coinbase_script (b ∷ bs) = data_command (b ∷ bs) ∷ []

unfoldable pub parse_coinbase_script : List ℕ → Result (Script × List ℕ)
unfolding coinbase_script
parse_coinbase_script bs = do
  (len, rest) ← read_var_int bs
  make 1 len
  (script_bytes, rest') ← read_full len rest
  ok (coinbase_script script_bytes, rest')

unfoldable pub parse_script_sig : Reader → Bool → List ℕ → Result (Script × List ℕ)
unfolding parse_coinbase_script
parse_script_sig r is_coinbase bs =
    if is_coinbase then parse_coinbase_script bs else parse_script r bs

unfoldable pub parse_tx_in : Reader → List ℕ → Result (TxIn × List ℕ)
unfolding parse_script_sig is_coinbase_input
parse_tx_in r bs = do
  (hash, bs1) ← read_exactly r 32 bs
  let prev_tx = reverse hash
  (buf, bs2) ← read_exactly r 4 bs1
  let prev_idx = le_decode buf
  (script_sig, bs3) ← parse_script_sig r (is_coinbase_input prev_tx prev_idx) bs2
  (buf', bs4) ← read_exactly r 4 bs3
  ok (tx_in prev_tx prev_idx script_sig (le_decode buf'), bs4)

unfoldable pub serialize : TxIn → Result (List ℕ)
serialize t = do
  script_bytes ← Codec.serialize t.script_sig
  ok (reverse t.prev_tx ++ (le_encode 4 t.prev_idx ++ (script_bytes ++ le_encode 4 t.sequence)))
