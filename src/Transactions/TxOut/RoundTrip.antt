-- ===== src/Transactions/TxOut/RoundTrip.antt =====
-- Outputs, written and read back.
use go_bitcoin.Base.{
  ℕ, ◌-◌, ◌^◌, ◌≤◌, ◌<◌, List, [], ◌∷◌, ◌++◌, append_assoc, append-nil, length, ltb, false,
}
use go_bitcoin.Base.{ok, ◌≡◌, refl, ap, arith}
use go_bitcoin.Base.Bytes.{Reader, bytes_reader, le_encode, length-le_encode, le_decode-le_encode}
use go_bitcoin.Base.Bytes.Reading.{read_exactly-append, read_full-append}
use go_bitcoin.Base.Codes.{Codes}
use go_bitcoin.Encoding.VarInt.Shape.{var_int, encode_var_int-eq-var_int, read_var_int-var_int}
use go_bitcoin.Script.Command.{Script}
use go_bitcoin.Script.Codec.RoundTrip.{command_bytes_pos}
use go_bitcoin.Base.{length-append}
use go_bitcoin.Script.Codec.{command_bytes, raw_bytes, read_script_bytes, max_alloc}
use go_bitcoin.Script.Codec.Written.{IsWritable, serialize-eq, parse_script-Codes}
use go_bitcoin.Transactions.TxOut.{TxOut, script_of_bytes, parse_tx_out, serialize}

-- An output with an amount below 2^64 and a script that its bytes tell, which can be allocated when it is read
pub record IsOutput (t : TxOut) : Type 0 where
  pub amount_fits : t.amount < 2 ^ 64
  pub script_writable : IsWritable t.script_pub_key
  pub script_fits : length (raw_bytes t.script_pub_key) ≤ 2 ^ 48

-- The output as it is read, with the bytes of its script as its raw bytes
abbrev pub with_raw : TxOut → TxOut
with_raw t = record t { raw = raw_bytes t.script_pub_key }

read_script_bytes-append :
    (raw rest : List ℕ)
    → length raw ≤ 2 ^ 48
    → read_script_bytes (var_int (length raw) ++ (raw ++ rest)) ≡ ok (raw, rest)
unfolding read_script_bytes
read_script_bytes-append raw rest fits =
    let small : ltb max_alloc (length raw) ≡ false = ground arith in
    rw (read_var_int-var_int (length raw) (raw ++ rest) (omega arith), small)
      (read_full-append (length raw) raw rest refl)

raw_bytes_nil : (s : Script) → raw_bytes s ≡ [] → s ≡ []
unfolding raw_bytes
raw_bytes_nil [] e = refl
raw_bytes_nil (c ∷ s) e =
    absurd (
      omega
        (arith, command_bytes_pos c, length-append (command_bytes c) (raw_bytes s), ap length e))

script_of_bytes-raw_bytes :
    (s : Script) (raw : List ℕ) → IsWritable s → raw_bytes s ≡ raw → script_of_bytes raw ≡ ok s
unfolding script_of_bytes
script_of_bytes-raw_bytes s [] w e = rw (raw_bytes_nil s e)
script_of_bytes-raw_bytes s (b ∷ bs) w e =
    let raw : List ℕ = b ∷ bs in
    let len : length (raw_bytes s) ≡ length raw = ap length e in
    let fits : length raw < 2 ^ 64 - 1 = rw len at w.fits in
    let (written, is_written, read) = parse_script-Codes bytes_reader s w in
    let bytes : written ≡ var_int (length raw) ++ raw =
      cc (is_written, rw e at (serialize-eq s w.fits)) in
    rw (encode_var_int-eq-var_int (length raw) fits, ← bytes, ← append-nil written, read [])

-- Read back in front of anything, the script and its raw bytes included.
pub parse_tx_out-Codes :
    (r : Reader) (t : TxOut) → IsOutput t → Codes (parse_tx_out r) (serialize t) (with_raw t)
unfolding parse_tx_out serialize
parse_tx_out-Codes r t h =
    let raw = raw_bytes t.script_pub_key in
    let n = length raw in
    (
      le_encode 8 t.amount ++ (var_int n ++ raw),
      rw (serialize-eq t.script_pub_key h.script_writable.fits) refl,
      (λ rest.
          rw
            (
              append_assoc,
              append_assoc,
              read_exactly-append r 8 (le_encode 8 t.amount) (var_int n ++ (raw ++ rest))
                  (omega arith) (length-le_encode 8 t.amount),
              read_script_bytes-append raw rest h.script_fits,
              script_of_bytes-raw_bytes t.script_pub_key raw h.script_writable refl,
              le_decode-le_encode 8 t.amount h.amount_fits,
            )
            refl),
    )
