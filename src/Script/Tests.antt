-- ===== src/Script/Tests.antt =====
-- Runs of the script codec, the script numbers and the engine at concrete values.
use go_bitcoin.Base.{ℕ, zero, suc, ◌+◌, ◌-◌, ◌^◌, ◌%◌, ◌==◌, Bool, true, ◌&&◌, List, [], ◌∷◌, ◌++◌}
use go_bitcoin.Base.{length, leb, if◌then◌else◌, ◌↔◌, inr, ◌≡◌, refl, arith, bytes_equal}
use go_bitcoin.Base.{ok, panic, out_of_fuel, ◌>>=◌, Returns}
use go_bitcoin.Base.Bytes.{bytes_reader, bytes_buffer, read_full, le_decode, read_exactly}
use go_bitcoin.Base.BigInt.{set_bytes}
use go_bitcoin.Encoding.Hash.{hash160}
use go_bitcoin.Encoding.VarInt.{read_var_int}
use go_bitcoin.Eccmath.Signature.{parse_signature, parse_integer}
use go_bitcoin.Script.Command.{
  ScriptCommand, Script, data_command, op_command, p2pkh_script, p2wsh_script,
}
use go_bitcoin.Script.Codec.{
  parse_script, parse_loop, parse_command, raw_bytes, command_bytes, serialize,
}
use go_bitcoin.Script.Codec.RoundTrip.{of_data, of_op, parse_script-serialize}
use go_bitcoin.Script.Codec.Consumption.{parse_script_takes}
use go_bitcoin.Script.Codec.Total.{parse_script-Returns}
use go_bitcoin.Script.Num.{encode_num, decode_num, decode_magnitude, sign_bit}
use go_bitcoin.Script.Num.RoundTrip.{decode_num-encode_num, encode_num_panics_iff}
use go_bitcoin.Script.Engine.{ScriptEngine, push_data, is_all_zeros}
use go_bitcoin.Script.Engine.CheckSig.{Crypto, check_sig_helper, op_check_multi_sig}
use go_bitcoin.Script.Engine.Opcode.{op_sub}
use go_bitcoin.Script.Engine.Locktime.{op_check_locktime_verify, op_check_sequence_verify}
use go_bitcoin.Script.Engine.Execute.{evaluate, evaluate_with_context}
use go_bitcoin.Script.Command.{p2wpkh_script}
use go_bitcoin.Script.Engine.PayToWitnessPubKeyHash.{evaluate-p2wpkh}
use go_bitcoin.Base.{false}
use go_bitcoin.Script.Engine.Branches.{evaluate-conditional}
use go_bitcoin.Script.Engine.PayToPubKeyHash.{evaluate-p2pkh}
use go_bitcoin.Script.Engine.Divergence.{evaluate-diverges}
use go_bitcoin.Script.Engine.Timelocks.{op_check_locktime_verify_iff, op_check_sequence_verify_iff}
use go_bitcoin.Script.Engine.Timelocks.{LocktimeReached, SequenceReached}
use go_bitcoin.Script.Engine.MultiSig.{IsSignedBy, op_check_multi_sig-eq}
use go_bitcoin.Script.Engine.Arithmetic.{op_sub-eq}

abbrev repeated : ℕ → List ℕ
repeated zero = []
repeated (suc k) = 1 ∷ repeated k

-- Hash functions that forget their input, and keys that are their bytes; a signature is valid where
-- `s` is not zero.
abbrev test_crypto : Crypto
test_crypto = record {
  hashes = record {
    sha256 = λ bs. repeated 32;
    sha1 = λ bs. repeated 20;
    ripemd160 = λ bs. repeated 20;
    length-sha256 = λ bs. refl;
    length-ripemd160 = λ bs. refl;
  };
  PublicKey = List ℕ;
  parse_public_key = λ bs. ok bs;
  verify = λ key z sig. ok (leb 1 sig.s);
}

abbrev small_script : Script
small_script = op_command 0x76 ∷ data_command (7 ∷ 8 ∷ []) ∷ []

parse_script-serialize_example :
    (serialize small_script >>= λ bs. parse_script bytes_buffer (bs ++ (9 ∷ [])))
    ≡ ok (small_script, 9 ∷ [])
unfolding raw_bytes command_bytes
parse_script-serialize_example =
    parse_script-serialize bytes_buffer small_script (9 ∷ [])
      (of_op 0x76 (inr (omega arith)), (of_data (7 ∷ 8 ∷ []) (omega arith) (omega arith), tt))
      (omega arith)

parse_script_takes_example :
    (len : ℕ) × (body : List ℕ) × (read_var_int (0x02 ∷ 0x76 ∷ 0x75 ∷ 9 ∷ []) ≡ ok (len, body))
    × (length body ≡ len + 1)
unfolding parse_script parse_loop parse_command read_var_int read_full read_exactly le_decode
parse_script_takes_example =
    parse_script_takes bytes_reader (0x02 ∷ 0x76 ∷ 0x75 ∷ 9 ∷ [])
      (op_command 0x76 ∷ op_command 0x75 ∷ []) (9 ∷ []) refl

parse_script-Returns_example : Returns (parse_script bytes_reader (0x05 ∷ 0x4c ∷ 0xff ∷ 1 ∷ []))
parse_script-Returns_example = parse_script-Returns bytes_reader (0x05 ∷ 0x4c ∷ 0xff ∷ 1 ∷ [])

decode_num-encode_num_example : (d : List ℕ) × (encode_num 1000 ≡ ok d) × (decode_num d ≡ 1000)
decode_num-encode_num_example = decode_num-encode_num 1000 (omega arith) (λ e. omega arith)

encode_num_panics_iff_example : (encode_num (2 ^ 63) ≡ panic) ↔ (2 ^ 63 ≡ 2 ^ 63)
encode_num_panics_iff_example = encode_num_panics_iff (2 ^ 63) (omega arith)

-- A DER signature with s = 7, and the byte of the hash type.
abbrev der_sig : List ℕ
der_sig = 0x30 ∷ 6 ∷ 2 ∷ 1 ∷ 5 ∷ 2 ∷ 1 ∷ 7 ∷ 1 ∷ []

check-der_sig :
    check_sig_helper test_crypto (data_command (3 ∷ [])) (data_command der_sig) (set_bytes (4 ∷ []))
    ≡ ok true
unfolding check_sig_helper parse_signature parse_integer read_full read_exactly le_decode set_bytes
check-der_sig = refl

evaluate-p2pkh_example :
    evaluate test_crypto 100
      (data_command der_sig ∷ data_command (3 ∷ []) ∷ p2pkh_script (repeated 20))
      (4 ∷ [])
    ≡ ok (bytes_equal (repeated 20) (hash160 test_crypto.hashes (3 ∷ [])) && true)
evaluate-p2pkh_example =
    evaluate-p2pkh test_crypto der_sig (3 ∷ []) (repeated 20) (4 ∷ []) 100 true (omega arith)
      (omega arith) check-der_sig

evaluate-p2wpkh_example :
    evaluate_with_context test_crypto 100
      (p2wpkh_script (repeated 20))
      (4 ∷ [])
      (der_sig ∷ (3 ∷ []) ∷ [])
      500
      7
    ≡ ok (bytes_equal (repeated 20) (hash160 test_crypto.hashes (3 ∷ [])) && true)
evaluate-p2wpkh_example =
    evaluate-p2wpkh test_crypto der_sig (3 ∷ []) (repeated 20) (4 ∷ []) 500 7 100 true (omega arith)
      refl (omega arith) check-der_sig

evaluate-diverges_example :
    evaluate_with_context test_crypto 1000
      (p2wsh_script (repeated 32))
      []
      ([] ∷ repeated 32 ∷ (0x76 ∷ 0x75 ∷ []) ∷ [])
      0
      0
    ≡ out_of_fuel
evaluate-diverges_example = evaluate-diverges test_crypto [] 0 0 1000

-- An engine at locktime 600000 and sequence 16, with nothing to run.
abbrev engine : ScriptEngine
engine = record {
  stack = [];
  altstack = [];
  commands = [];
  pc = 0;
  z = [];
  witness = [];
  locktime = 600000;
  sequence = 16;
}

abbrev engine_on : List ScriptCommand → ScriptEngine
engine_on items = record engine { stack = items }

op_check_locktime_verify_iff_example :
    (op_check_locktime_verify (engine_on (data_command (9 ∷ []) ∷ []))
      ≡ ok (engine_on (data_command (9 ∷ []) ∷ [])))
    ↔ ((engine_on (data_command (9 ∷ []) ∷ []) ≡ engine_on (data_command (9 ∷ []) ∷ []))
        × LocktimeReached 600000 16 (decode_num (9 ∷ [])))
op_check_locktime_verify_iff_example =
    op_check_locktime_verify_iff engine (data_command (9 ∷ [])) []
      (engine_on (data_command (9 ∷ []) ∷ []))

op_check_sequence_verify_iff_example :
    (op_check_sequence_verify (engine_on (data_command (9 ∷ []) ∷ []))
      ≡ ok (engine_on (data_command (9 ∷ []) ∷ [])))
    ↔ ((engine_on (data_command (9 ∷ []) ∷ []) ≡ engine_on (data_command (9 ∷ []) ∷ []))
        × SequenceReached 16 (decode_num (9 ∷ [])))
op_check_sequence_verify_iff_example =
    op_check_sequence_verify_iff engine (data_command (9 ∷ [])) []
      (engine_on (data_command (9 ∷ []) ∷ []))

abbrev verdict : ScriptCommand → ScriptCommand → Bool
verdict key sig = length sig.bytes == 9

op_check_multi_sig-eq_example :
    (b : Bool) × (op_check_multi_sig test_crypto (
        engine_on (
          data_command (2 ∷ [])
          ∷ data_command (3 ∷ [])
          ∷ data_command (4 ∷ [])
          ∷ data_command (1 ∷ [])
          ∷ data_command der_sig
          ∷ data_command []
          ∷ []))
      ≡ ok (push_data (if b then 0x01 ∷ [] else 0x00 ∷ []) engine))
    × ((b ≡ true)
        ↔ IsSignedBy verdict
            (data_command (3 ∷ []) ∷ data_command (4 ∷ []) ∷ [])
            (data_command der_sig ∷ []))
unfolding check_sig_helper parse_signature parse_integer read_full read_exactly le_decode set_bytes
    decode_num decode_magnitude sign_bit
op_check_multi_sig-eq_example =
    op_check_multi_sig-eq test_crypto engine verdict (data_command (2 ∷ [])) (data_command (1 ∷ []))
      (data_command []) (data_command (3 ∷ []) ∷ data_command (4 ∷ []) ∷ [])
      (data_command der_sig ∷ []) [] ((refl, tt), ((refl, tt), tt)) refl refl (omega arith)
      (omega arith)

op_sub-eq_example :
    (d : List ℕ) × (op_sub (engine_on (data_command (9 ∷ []) ∷ data_command (2 ∷ []) ∷ []))
      ≡ ok (push_data d engine))
    × (decode_num d ≡ (decode_num (9 ∷ []) + 2 ^ 64 - decode_num (2 ∷ [])) % 2 ^ 64)
unfolding decode_num decode_magnitude sign_bit
op_sub-eq_example =
    op_sub-eq engine (data_command (9 ∷ [])) (data_command (2 ∷ [])) [] (λ e. omega arith)

evaluate-conditional_example :
    evaluate test_crypto 50
      (op_command 0x51
        ∷ data_command (0 ∷ 2 ∷ [])
        ∷ op_command 0x63
        ∷ data_command (7 ∷ [])
        ∷ data_command []
        ∷ op_command 0x68
        ∷ [])
      []
    ≡ ok false
unfolding is_all_zeros
evaluate-conditional_example =
    evaluate-conditional test_crypto [] (0 ∷ 2 ∷ []) ((7 ∷ []) ∷ [] ∷ []) 50 (omega arith)
