-- ===== src/Transactions/TxOut.antt =====
-- Transaction outputs, ParseTxOut and TxOut.Serialize of internal/transactions/txinputs.go.
pub mod RoundTrip
use go_bitcoin.Base.{ℕ, ◌+◌, ◌^◌, List, [], ◌∷◌, ◌++◌, length}
use go_bitcoin.Base.{Result, ok, err, panic, out_of_fuel, ◌>>=◌}
use go_bitcoin.Base.Bytes.{Reader, bytes_reader, le_encode, le_decode, read_exactly}
use go_bitcoin.Encoding.VarInt.{encode_var_int}
use go_bitcoin.Script.Command.{Script}
use go_bitcoin.Script.Codec.{parse_script, read_script_bytes, raw_bytes}
use go_bitcoin.Script.Codec

-- `raw` is the field rawScriptBytes.
pub record TxOut : Type 0 where
  pub amount : ℕ
  pub script_pub_key : Script
  pub raw : List ℕ

abbrev pub tx_out : ℕ → Script → List ℕ → TxOut
tx_out a s raw = record { amount = a; script_pub_key = s; raw = raw }

unfoldable pub raw_or_serialized : List ℕ → Script → List ℕ
raw_or_serialized [] s = raw_bytes s
raw_or_serialized (b ∷ bs) s = b ∷ bs

unfoldable pub raw_script_bytes : TxOut → List ℕ
unfolding raw_or_serialized
raw_script_bytes t = raw_or_serialized t.raw t.script_pub_key

-- A script that does not parse is taken for the empty one. The error of EncodeVarInt is dropped, with a
-- nil prefix.
abbrev or_empty : Result (List ℕ) → List ℕ
or_empty (ok bs) = bs
or_empty _ = []

abbrev script_or_empty : Result (Script × List ℕ) → Result Script
script_or_empty (ok (s, rest)) = ok s
script_or_empty (err e) = ok []
script_or_empty panic = panic
script_or_empty out_of_fuel = out_of_fuel

unfoldable pub script_of_bytes : List ℕ → Result Script
script_of_bytes [] = ok []
script_of_bytes (b ∷ bs) =
    let script_bytes : List ℕ = b ∷ bs in
    script_or_empty
      (parse_script bytes_reader (or_empty (encode_var_int (length script_bytes)) ++ script_bytes))

unfoldable pub parse_tx_out : Reader → List ℕ → Result (TxOut × List ℕ)
unfolding script_of_bytes
parse_tx_out r bs = do
  (buf, bs1) ← read_exactly r 8 bs
  (script_bytes, bs2) ← read_script_bytes bs1
  script ← script_of_bytes script_bytes
  ok (tx_out (le_decode buf) script script_bytes, bs2)

unfoldable pub serialize : TxOut → Result (List ℕ)
serialize t = do
  script_bytes ← Codec.serialize t.script_pub_key
  ok (le_encode 8 t.amount ++ script_bytes)
