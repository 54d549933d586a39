-- ===== src/Transactions/Tests.antt =====
-- Runs of transactions at concrete values.
use go_bitcoin.Base.{ℕ, zero, suc, ◌≤◌, true, false, none, List, [], ◌∷◌, ◌++◌, leb, inl, inr}
use go_bitcoin.Base.{ok, ◌≡◌, refl, arith}
use go_bitcoin.Base.Bytes.{bytes_buffer, le_encode, le_decode, read, read_exactly, read_full}
use go_bitcoin.Encoding.Hash.{Hashes, hash256, hash160}
use go_bitcoin.Script.Command.{op_command, p2pkh_script}
use go_bitcoin.Script.Codec.{raw_bytes, command_bytes, push_bytes, push_prefix, push_sized}
use go_bitcoin.Script.Codec.RoundTrip.{of_op}
use go_bitcoin.Script.Codec
use go_bitcoin.Script.Codec.{parse_script, parse_loop, parse_command, read_script_bytes}
use go_bitcoin.Encoding.VarInt.{read_var_int, read_wide, encode_var_int}
use go_bitcoin.Base.{bytes_equal}
use go_bitcoin.Base.Bytes.{copy_into}
use go_bitcoin.Base.Codes.{make, parse_many, write_many}
use go_bitcoin.Transactions.TxIn
use go_bitcoin.Transactions.TxOut
use go_bitcoin.Transactions.TxIn.{parse_tx_in}
use go_bitcoin.Transactions.TxOut.{parse_tx_out, script_of_bytes}
use go_bitcoin.Transactions.Transaction.{hash, serialize_legacy, put_inputs_outputs}
use go_bitcoin.Script.Engine.CheckSig.{Crypto}
use go_bitcoin.Transactions.TxIn.{TxIn, tx_in, is_coinbase_input, all_zero}
use go_bitcoin.Transactions.TxIn.RoundTrip.{IsSpending}
use go_bitcoin.Transactions.TxOut.{TxOut, tx_out}
use go_bitcoin.Transactions.TxOut.RoundTrip.{IsOutput}
use go_bitcoin.Transactions.Transaction.{Transaction, new_transaction, serialize, parse_transaction}
use go_bitcoin.Transactions.Transaction.Witness.{IsWitness}
use go_bitcoin.Transactions.Fetch.{Explorer, value, nth, script_pub_key, previous_output, fetch}
use go_bitcoin.Transactions.Fee.{fee}
use go_bitcoin.Transactions.Fee.Exact.{fee_exact}
use go_bitcoin.Transactions.SigHash.{
  sig_hash, signed_script, modified_transaction, modified_inputs, is_p2sh_triplet,
}
use go_bitcoin.Transactions.SegwitHash.{sig_hash_bip143}
use go_bitcoin.Transactions.SegwitHash.Caches.{
  IsCached, uncached, bip143_digest, Refines, sig_hash_bip143-Refines,
}
use go_bitcoin.Transactions.Verify.{verify, verify_input}
use go_bitcoin.Transactions.Verify.Caches.{verify-IsCached}
use go_bitcoin.Transactions.Sign.{PrivateKey, sign_input}
use go_bitcoin.Transactions.Sign.Valid.{Spends, Signs, verify_input-sign_input}
use go_bitcoin.Transactions.Transaction.RoundTrip.{IsCodable, IsFresh, parse_transaction-serialize}
use go_bitcoin.Base.Codes.{Codes}

abbrev repeated : ℕ → List ℕ
repeated zero = []
repeated (suc k) = 1 ∷ repeated k

abbrev constant_hashes : Hashes
constant_hashes = record {
  sha256 = λ bs. repeated 32;
  sha1 = λ bs. repeated 20;
  ripemd160 = λ bs. repeated 20;
  length-sha256 = λ bs. refl;
  length-ripemd160 = λ bs. refl;
}

abbrev test_crypto : Crypto
test_crypto = record {
  hashes = constant_hashes;
  PublicKey = List ℕ;
  parse_public_key = λ bs. ok bs;
  verify = λ key z sig. ok (leb 1 sig.s);
}

-- An input with a witness of one item, and an output that holds nothing but OP_DUP.
abbrev one_input : TxIn
one_input = record {
  prev_tx = repeated 32;
  prev_idx = 0;
  script_sig = [];
  sequence = 7;
  witness = (5 ∷ 6 ∷ []) ∷ [];
}

abbrev one_output : TxOut
one_output = tx_out 1000 (op_command 0x76 ∷ []) (0x76 ∷ [])

abbrev pub segwit_tx : Transaction
segwit_tx = record {
  version = 2;
  inputs = one_input ∷ [];
  outputs = one_output ∷ [];
  locktime = 9;
  is_testnet = false;
  is_segwit = true;
  cached_hash_prev_outs = none;
  cached_hash_sequence = none;
  cached_hash_outputs = none;
}

one_input-IsSpending : IsSpending one_input
unfolding is_coinbase_input raw_bytes
one_input-IsSpending = record {
  prev_tx_32 = refl;
  prev_idx_fits = omega arith;
  no_coinbase = refl;
  script_sig_writable = record { canonical = tt; fits = omega arith };
  sequence_fits = omega arith;
}

op_dup-IsOutput : (raw : List ℕ) → IsOutput (tx_out 1000 (op_command 0x76 ∷ []) raw)
unfolding raw_bytes command_bytes
op_dup-IsOutput raw = record {
  amount_fits = omega arith;
  script_writable = record { canonical = (of_op 0x76 (inr (omega arith)), tt); fits = omega arith };
  script_fits = omega arith;
}

-- The same for the test network, with an output that has its script and no raw bytes
abbrev testnet_tx : Transaction
testnet_tx = record segwit_tx {
  outputs = tx_out 1000 (op_command 0x76 ∷ []) [] ∷ [];
  is_testnet = true;
}

testnet_tx-IsCodable : IsCodable testnet_tx
testnet_tx-IsCodable = record {
  version_fits = omega arith;
  locktime_fits = omega arith;
  body = record {
    inputs_spend = (one_input-IsSpending, tt);
    outputs_fit = (op_dup-IsOutput [], tt);
    input_count_fits = omega arith;
    output_count_fits = omega arith;
  };
}

pub segwit_tx-IsFresh : IsFresh segwit_tx
unfolding raw_bytes command_bytes
segwit_tx-IsFresh = record {
  codable = record {
    version_fits = omega arith;
    locktime_fits = omega arith;
    body = record {
      inputs_spend = (one_input-IsSpending, tt);
      outputs_fit = (op_dup-IsOutput (0x76 ∷ []), tt);
      input_count_fits = omega arith;
      output_count_fits = omega arith;
    };
  };
  raw_kept = refl;
  no_testnet = refl;
  no_prev_outs = refl;
  no_sequence = refl;
  no_outputs = refl;
}

pub segwit_tx-IsWitness : IsWitness one_input.witness
segwit_tx-IsWitness = record { item_fits = (omega arith, tt); count_fits = omega arith }

parse_transaction-serialize_example :
    Codes (parse_transaction bytes_buffer) (serialize testnet_tx) segwit_tx
unfolding raw_bytes command_bytes
parse_transaction-serialize_example =
    parse_transaction-serialize bytes_buffer testnet_tx testnet_tx-IsCodable
      (inl (refl, (segwit_tx-IsWitness, tt)))

-- The raw transaction that is spent: one output of 1000 satoshi to the key hash of the test.
abbrev funding : List ℕ
funding =
    1
    ∷ 0
    ∷ 0
    ∷ 0
    ∷ 1
    ∷ (repeated 32
        ++ (0
            ∷ 0
            ∷ 0
            ∷ 0
            ∷ 0
            ∷ 255
            ∷ 255
            ∷ 255
            ∷ 255
            ∷ 1
            ∷ 0xe8
            ∷ 3
            ∷ 0
            ∷ 0
            ∷ 0
            ∷ 0
            ∷ 0
            ∷ 0
            ∷ 0x19
            ∷ 0x76
            ∷ 0xa9
            ∷ 0x14
            ∷ (repeated 20 ++ (0x88 ∷ 0xac ∷ 0 ∷ 0 ∷ 0 ∷ 0 ∷ []))))

abbrev explorer : Explorer
explorer testnet tx_id = ok funding

-- A transaction in the old form that spends it.
abbrev plain_tx : Transaction
plain_tx = new_transaction 1 (tx_in (repeated 32) 0 [] 7 ∷ []) (one_output ∷ []) 0 false false

abbrev spent_output : TxOut
spent_output =
    tx_out 1000 (p2pkh_script (repeated 20))
      (0x76 ∷ 0xa9 ∷ 0x14 ∷ (repeated 20 ++ (0x88 ∷ 0xac ∷ [])))

fetched :
    fetch constant_hashes explorer (repeated 32) false
    ≡ ok (
        new_transaction 1
          (tx_in (repeated 32) 0 [] 0xffffffff ∷ [])
          (spent_output ∷ [])
          0
          false
          false)
unfolding fetch parse_transaction read_exactly le_decode read_var_int read_full make parse_many
    parse_tx_in parse_script parse_loop parse_tx_out read_script_bytes encode_var_int parse_command
    hash serialize_legacy write_many copy_into le_encode read bytes_equal hash256 read_wide
    command_bytes raw_bytes Codec.serialize new_transaction all_zero is_coinbase_input
    TxIn.serialize script_of_bytes TxOut.serialize p2pkh_script
fetched = refl

Spends-key_hash : Spends test_crypto explorer plain_tx 0 (tx_in (repeated 32) 0 [] 7) (5 ∷ [])
unfolding script_pub_key previous_output nth new_transaction hash160
Spends-key_hash = (refl, rw fetched refl)

abbrev test_key : PrivateKey
test_key = record {
  sign_hash = λ z. ok (record { r = 5; s = 7 });
  public_key = λ compressed. 5 ∷ [];
}

spent_value : value constant_hashes explorer (tx_in (repeated 32) 0 [] 7) false ≡ ok 1000
unfolding value previous_output nth new_transaction
spent_value = rw fetched refl

plain_digest : sig_hash constant_hashes explorer plain_tx 0 ≡ ok (repeated 32)
unfolding sig_hash signed_script modified_transaction modified_inputs new_transaction
    is_p2sh_triplet serialize serialize_legacy write_many TxIn.serialize Codec.serialize
    encode_var_int raw_bytes command_bytes push_bytes push_prefix push_sized TxOut.serialize hash256
    put_inputs_outputs nth p2pkh_script script_pub_key previous_output
plain_digest = rw fetched refl

test_key-Signs :
    Signs test_crypto explorer plain_tx 0
      (tx_in (repeated 32) 0 [] 7)
      test_key
      (5 ∷ [])
      (repeated 32)
      true
test_key-Signs = (record { r = 5; s = 7 }, 5 ∷ [], refl, omega arith, omega arith, refl, refl)

verify_input-sign_input_example :
    (t' : Transaction) × (sign_input constant_hashes explorer test_key true 0 plain_tx
      ≡ (ok tt, t'))
    × ((fuel : ℕ) → 8 ≤ fuel → verify_input test_crypto explorer fuel 0 t' ≡ (ok true, t'))
verify_input-sign_input_example =
    verify_input-sign_input test_crypto explorer plain_tx 0 (tx_in (repeated 32) 0 [] 7) test_key
      true (repeated 32) true Spends-key_hash plain_digest test_key-Signs

fee_exact_example :
    fee constant_hashes explorer (record plain_tx { outputs = tx_out 900 [] [] ∷ [] }) false
    ≡ ok 100
unfolding new_transaction
fee_exact_example =
    fee_exact constant_hashes explorer (record plain_tx { outputs = tx_out 900 [] [] ∷ [] }) false
      1000 (rw spent_value refl) (omega arith) (omega arith)

-- No digest is cached yet.
segwit_tx-IsCached : IsCached constant_hashes segwit_tx
segwit_tx-IsCached = record { inputs_cached = inl (refl, refl); outputs_cached = inl refl }

sig_hash_bip143-Refines_example :
    Refines constant_hashes segwit_tx
      (sig_hash_bip143 constant_hashes explorer 0 none none segwit_tx)
      (bip143_digest constant_hashes explorer segwit_tx 0 none none)
sig_hash_bip143-Refines_example =
    sig_hash_bip143-Refines constant_hashes explorer 0 none none segwit_tx segwit_tx-IsCached

verify-IsCached_example :
    IsCached constant_hashes (verify test_crypto explorer 100 segwit_tx).1
    × (uncached (verify test_crypto explorer 100 segwit_tx).1 ≡ segwit_tx)
verify-IsCached_example = verify-IsCached test_crypto explorer 100 segwit_tx segwit_tx-IsCached
