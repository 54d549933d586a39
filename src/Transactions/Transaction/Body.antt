-- ===== src/Transactions/Transaction/Body.antt =====
-- The inputs and outputs of a transaction, written and read back.
use go_bitcoin.Base.{ℕ, suc, ◌-◌, ◌*◌, ◌^◌, ◌≤◌, ◌<◌, List, [], ◌∷◌, ◌++◌, append_assoc, map}
use go_bitcoin.Base.{length, All}
use go_bitcoin.Base.{ok, ◌≡◌, refl, sym, ap, ◌∙◌, arith}
use go_bitcoin.Base.Bytes.{Reader, read}
use go_bitcoin.Base.Codes.{make-ok, write_many, CodesBefore, Codes-many}
use go_bitcoin.Encoding.VarInt.Shape.{var_int, encode_var_int-eq-var_int, read_var_int-var_int}
use go_bitcoin.Transactions.TxIn.{TxIn, parse_tx_in}
use go_bitcoin.Transactions.TxIn
use go_bitcoin.Transactions.TxIn.RoundTrip.{IsSpending, parse_tx_in-Codes}
use go_bitcoin.Transactions.TxOut.{TxOut, parse_tx_out}
use go_bitcoin.Transactions.TxOut
use go_bitcoin.Transactions.TxOut.RoundTrip.{IsOutput, with_raw, parse_tx_out-Codes}
use go_bitcoin.Transactions.Transaction.Witness.{bare}
use go_bitcoin.Transactions.Transaction.{Transaction, put_inputs_outputs, take_inputs_outputs}

-- The counted sequences of a transaction: inputs that spend outputs, and outputs, as many as can be
-- allocated when they are read.
pub record IsBody (t : Transaction) : Type 0 where
  pub inputs_spend : All IsSpending t.inputs
  pub outputs_fit : All IsOutput t.outputs
  pub input_count_fits : 88 * length t.inputs ≤ 2 ^ 48
  pub output_count_fits : 56 * length t.outputs ≤ 2 ^ 48

length-map-bare : (ts : List TxIn) → length (map bare ts) ≡ length ts
length-map-bare [] = refl
length-map-bare (t ∷ ts) = ap suc (length-map-bare ts)

write_many-bare :
    (ts : List TxIn) → write_many TxIn.serialize (map bare ts) ≡ write_many TxIn.serialize ts
unfolding write_many TxIn.serialize
write_many-bare [] = refl
write_many-bare (t ∷ ts) = rw (write_many-bare ts) refl

length-map-with_raw : (ts : List TxOut) → length (map with_raw ts) ≡ length ts
length-map-with_raw [] = refl
length-map-with_raw (t ∷ ts) = ap suc (length-map-with_raw ts)

write_many-with_raw :
    (ts : List TxOut) → write_many TxOut.serialize (map with_raw ts) ≡ write_many TxOut.serialize ts
unfolding write_many TxOut.serialize
write_many-with_raw [] = refl
write_many-with_raw (t ∷ ts) = rw (write_many-with_raw ts) refl

module _ (r : Reader) where
  All-inputs :
      (ts : List TxIn)
      → All IsSpending ts
      → All (λ t. CodesBefore 0 (parse_tx_in r) (TxIn.serialize t) t) (map bare ts)
  unfolding TxIn.serialize
  All-inputs [] h = tt
  All-inputs (t ∷ ts) (h, hs) =
      let (bs, written, read) = parse_tx_in-Codes r t h in
      ((bs, written, λ rest k. read rest), All-inputs ts hs)

  All-outputs :
      (ts : List TxOut)
      → All IsOutput ts
      → All (λ t. CodesBefore 0 (parse_tx_out r) (TxOut.serialize t) t) (map with_raw ts)
  unfolding TxOut.serialize
  All-outputs [] h = tt
  All-outputs (t ∷ ts) (h, hs) =
      let (bs, written, read) = parse_tx_out-Codes r t h in
      ((bs, written, λ rest k. read rest), All-outputs ts hs)

  -- The bytes behind the count of the inputs, which the marker of a segwit transaction is told by.
  pub body_read :
      (t : Transaction)
      → IsBody t
      → (more : List ℕ) × (put_inputs_outputs t ≡ ok (var_int (length t.inputs) ++ more))
        × ((rest : List ℕ)
            → take_inputs_outputs r (var_int (length t.inputs) ++ (more ++ rest))
              ≡ ok (map bare t.inputs, map with_raw t.outputs, rest))
  unfolding put_inputs_outputs take_inputs_outputs
  body_read t h =
      let n = length t.inputs in
      let m = length t.outputs in
      let (ins, ins_written, ins_read) =
        Codes-many 0 (parse_tx_in r) TxIn.serialize (map bare t.inputs)
          (All-inputs t.inputs h.inputs_spend) in
      let (outs, outs_written, outs_read) =
        Codes-many 0 (parse_tx_out r) TxOut.serialize (map with_raw t.outputs)
          (All-outputs t.outputs h.outputs_fit) in
      let n_fits : n < 2 ^ 64 - 1 = omega (arith, h.input_count_fits) in
      let m_fits : m < 2 ^ 64 - 1 = omega (arith, h.output_count_fits) in
      let same_outs : write_many TxOut.serialize t.outputs ≡ ok outs =
        sym (write_many-with_raw t.outputs) ∙ outs_written in
      let same : write_many TxIn.serialize t.inputs ≡ ok ins =
        sym (write_many-bare t.inputs) ∙ ins_written in
      (
        ins ++ (var_int m ++ outs),
        rw (encode_var_int-eq-var_int n n_fits, same, encode_var_int-eq-var_int m m_fits, same_outs)
            refl,
        (λ rest.
            rw
              (
                append_assoc,
                append_assoc,
                read_var_int-var_int n (ins ++ (var_int m ++ (outs ++ rest))) n_fits,
                make-ok 88 n h.input_count_fits,
                ← length-map-bare t.inputs,
                ins_read (var_int m ++ (outs ++ rest)) (omega arith),
                read_var_int-var_int m (outs ++ rest) m_fits,
                make-ok 56 m h.output_count_fits,
                ← length-map-with_raw t.outputs,
                outs_read rest (omega arith),
              )
              refl),
      )
