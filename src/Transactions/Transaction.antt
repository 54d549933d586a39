-- ===== src/Transactions/Transaction.antt =====
-- Transactions and their bytes: internal/transactions/transaction.go.
pub mod Witness
pub mod Body
pub mod RoundTrip
use go_bitcoin.Base.{
  ℕ, ◌+◌, Bool, true, false, Option, none, some, List, [], ◌∷◌, ◌++◌, reverse, length, take, drop,
}
use go_bitcoin.Base.{◌==◌, if◌then◌else◌, Result, ok, ◌>>=◌}
use go_bitcoin.Base.Bytes.{Reader, copy_into, le_encode, le_decode, read, read_exactly}
use go_bitcoin.Base.Codes.{make, ◌>>◌, parse_many, write_many}
use go_bitcoin.Encoding.VarInt.{read_var_int, encode_var_int}
use go_bitcoin.Encoding.Hash.{Hashes, hash256}
use go_bitcoin.Transactions.TxIn.{TxIn, parse_tx_in}
use go_bitcoin.Transactions.TxOut.{TxOut, parse_tx_out}
use go_bitcoin.Transactions.TxIn
use go_bitcoin.Transactions.TxOut

abbrev pub segwit_marker : ℕ
segwit_marker = 0x00

abbrev pub segwit_flag : ℕ
segwit_flag = 0x01

-- A nil slice in a cached field is `none`.
pub record Transaction : Type 0 where
  pub version : ℕ
  pub inputs : List TxIn
  pub outputs : List TxOut
  pub locktime : ℕ
  pub is_testnet : Bool
  pub is_segwit : Bool
  pub cached_hash_prev_outs : Option (List ℕ)
  pub cached_hash_sequence : Option (List ℕ)
  pub cached_hash_outputs : Option (List ℕ)

unfoldable pub new_transaction : ℕ → List TxIn → List TxOut → ℕ → Bool → Bool → Transaction
new_transaction v ins outs l testnet segwit = record {
  version = v;
  inputs = ins;
  outputs = outs;
  locktime = l;
  is_testnet = testnet;
  is_segwit = segwit;
  cached_hash_prev_outs = none;
  cached_hash_sequence = none;
  cached_hash_outputs = none;
}

-- The two counted sequences of inputs and outputs, as they are written
unfoldable pub put_inputs_outputs : Transaction → Result (List ℕ)
put_inputs_outputs t = do
  input_len ← encode_var_int (length t.inputs)
  ins ← write_many TxIn.serialize t.inputs
  output_len ← encode_var_int (length t.outputs)
  outs ← write_many TxOut.serialize t.outputs
  ok (input_len ++ (ins ++ (output_len ++ outs)))

unfoldable pub serialize_legacy : Transaction → Result (List ℕ)
unfolding put_inputs_outputs
serialize_legacy t = do
  body ← put_inputs_outputs t
  ok (le_encode 4 t.version ++ (body ++ le_encode 4 t.locktime))

unfoldable pub witness_item_bytes : List ℕ → Result (List ℕ)
witness_item_bytes item = do len ← encode_var_int (length item); ok (len ++ item)

unfoldable pub witness_bytes : TxIn → Result (List ℕ)
unfolding witness_item_bytes
witness_bytes t = do
  num ← encode_var_int (length t.witness)
  items ← write_many witness_item_bytes t.witness
  ok (num ++ items)

unfoldable pub serialize_segwit : Transaction → Result (List ℕ)
unfolding put_inputs_outputs witness_bytes
serialize_segwit t = do
  body ← put_inputs_outputs t
  witnesses ← write_many witness_bytes t.inputs
  ok (
      le_encode 4 t.version
      ++ (segwit_marker ∷ segwit_flag ∷ (body ++ (witnesses ++ le_encode 4 t.locktime))))

unfoldable pub serialize : Transaction → Result (List ℕ)
unfolding serialize_legacy serialize_segwit
serialize t = if t.is_segwit then serialize_segwit t else serialize_legacy t

-- An input takes 88 bytes of memory, an output 56 and a slice 24.
unfoldable pub take_inputs_outputs : Reader → List ℕ → Result (List TxIn × List TxOut × List ℕ)
take_inputs_outputs r bs = do
  (n, bs1) ← read_var_int bs
  make 88 n
  (ins, bs2) ← parse_many (parse_tx_in r) n bs1
  (m, bs3) ← read_var_int bs2
  make 56 m
  (outs, bs4) ← parse_many (parse_tx_out r) m bs3
  ok (ins, outs, bs4)

-- The count of read bytes is dropped, so an item that is cut short ends in zeros.
unfoldable pub parse_witness_item : Reader → List ℕ → Result (List ℕ × List ℕ)
parse_witness_item r bs = do
  (len, bs1) ← read_var_int bs
  make 1 len
  (xs, bs2) ← read r len bs1
  ok (copy_into len xs, bs2)

unfoldable pub parse_witness : Reader → List ℕ → Result (List (List ℕ) × List ℕ)
unfolding parse_witness_item
parse_witness r bs = do
  (n, bs1) ← read_var_int bs
  make 24 n
  parse_many (parse_witness_item r) n bs1

unfoldable pub parse_witnesses : Reader → List TxIn → List ℕ → Result (List TxIn × List ℕ)
unfolding parse_witness
parse_witnesses r [] bs = ok ([], bs)
parse_witnesses r (t ∷ ts) bs = do
  (items, bs1) ← parse_witness r bs
  (more, bs2) ← parse_witnesses r ts bs1
  ok (record t { witness = items } ∷ more, bs2)

-- The byte after the version goes back in front of the reader.
unfoldable pub parse_legacy_transaction : Reader → List ℕ → ℕ → ℕ → Result (Transaction × List ℕ)
unfolding take_inputs_outputs new_transaction
parse_legacy_transaction r bs version first_byte = do
  (ins, outs, bs1) ← take_inputs_outputs r (first_byte ∷ bs)
  (buf, bs2) ← read_exactly r 4 bs1
  ok (new_transaction version ins outs (le_decode buf) false false, bs2)

-- The flag is read and not tested.
unfoldable pub parse_segwit_transaction : Reader → List ℕ → ℕ → Result (Transaction × List ℕ)
unfolding take_inputs_outputs parse_witnesses new_transaction
parse_segwit_transaction r bs version = do
  (flag, bs1) ← read r 1 bs
  (ins, outs, bs2) ← take_inputs_outputs r bs1
  (ins', bs3) ← parse_witnesses r ins bs2
  (buf, bs4) ← read_exactly r 4 bs3
  ok (new_transaction version ins' outs (le_decode buf) false true, bs4)

unfoldable pub parse_transaction : Reader → List ℕ → Result (Transaction × List ℕ)
unfolding parse_legacy_transaction parse_segwit_transaction
parse_transaction r bs = do
  (buf, rest) ← read_exactly r 5 bs
  let version = le_decode (take 4 buf)
  let marker = le_decode (drop 4 buf)
  (if marker == 0x00
      then parse_segwit_transaction r rest version
      else parse_legacy_transaction r rest version marker)

-- The transaction's id, and the hash of the bytes with the witnesses, in display order
unfoldable pub hash : Hashes → Transaction → Result (List ℕ)
hash h t = do bs ← serialize_legacy t; ok (reverse (hash256 h bs))

unfoldable pub witness_hash : Hashes → Transaction → Result (List ℕ)
witness_hash h t = do bs ← serialize t; ok (reverse (hash256 h bs))
