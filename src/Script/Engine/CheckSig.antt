-- ===== src/Script/Engine/CheckSig.antt =====
-- OP_CHECKSIG and OP_CHECKMULTISIG of internal/script/scriptengine.go.
use go_bitcoin.Base.{ℕ, zero, suc, ◌+◌, ◌-◌, ◌^◌, Bool, true, false, List, [], ◌∷◌}
use go_bitcoin.Base.{ltb, leb, ◌==◌, if◌then◌else◌, length, take}
use go_bitcoin.Base.{Result, ok, err, panic, out_of_fuel, ◌>>=◌}
use go_bitcoin.Base.Bytes.{bytes_reader}
use go_bitcoin.Base.BigInt.{set_bytes}
use go_bitcoin.Encoding.Hash.{Hashes}
use go_bitcoin.Eccmath.Signature.{Signature, parse_signature}
use go_bitcoin.Script.Command.{ScriptCommand}
use go_bitcoin.Script.Num.{decode_num}
use go_bitcoin.Script.Engine.{ScriptEngine, failed, pop, push_data}
use go_bitcoin.Script.Engine.Opcode.{op_verify}

-- What the engine calls: the hash functions, and the two operations on public keys of
-- internal/keys and internal/eccmath/secp256k1.go.
pub record Crypto : Type 1 where
  pub hashes : Hashes
  pub PublicKey : Type 0
  pub parse_public_key : List ℕ → Result PublicKey
  pub verify : PublicKey → ℕ → Signature → Result Bool

-- `if err != nil { return false }`
abbrev or_false {ℓ} : {A : Type ℓ} → Result A → (A → Result Bool) → Result Bool
or_false (ok a) k = k a
or_false (err e) k = ok false
or_false panic k = panic
or_false out_of_fuel k = out_of_fuel

module _ (c : Crypto) where
  unfoldable pub check_sig_helper : ScriptCommand → ScriptCommand → ℕ → Result Bool
  check_sig_helper pubkey_cmd sig_cmd z =
      if length sig_cmd.bytes == 0
      then ok false
      else let der_sig = take (length sig_cmd.bytes - 1) sig_cmd.bytes in
        or_false (parse_signature bytes_reader der_sig)
          λ sig. or_false (c.parse_public_key pubkey_cmd.bytes) λ pubkey. c.verify pubkey z sig

  unfoldable pub op_check_sig : ScriptEngine → Result ScriptEngine
  unfolding pop push_data
  op_check_sig se = do
    (pubkey_cmd, se1) ← pop se
    (sig_cmd, se2) ← pop se1
    valid ← check_sig_helper pubkey_cmd sig_cmd (set_bytes se2.z)
    ok (push_data (if valid then 0x01 ∷ [] else []) se2)

  unfoldable pub op_check_sig_verify : ScriptEngine → Result ScriptEngine
  unfolding op_check_sig op_verify
  op_check_sig_verify se = do se' ← op_check_sig se; op_verify se'

-- The guard `len(se.stack) < n+1` and `make(..., 0, n)` on int64 numbers: a negative `n` passes the
-- guard and panics in `make`, and so does 2^63 - 1, since `n + 1` wraps.
unfoldable pub checked_count : ℕ → ScriptEngine → Result ℕ
checked_count n se =
    if leb (2 ^ 63 - 1) n then panic else if ltb (length se.stack) (n + 1) then failed else ok n

unfoldable pub pop_many : ℕ → ScriptEngine → Result (List ScriptCommand × ScriptEngine)
unfolding pop
pop_many zero se = ok ([], se)
pop_many (suc n) se = do (top, se1) ← pop se; (more, se2) ← pop_many n se1; ok (top ∷ more, se2)

-- The matching loop from `pubkeyIndex` and `sigIndex` on: the lists are what the indices have not
-- passed, and the result says whether all signatures are matched.
unfoldable pub match_all :
    (ScriptCommand → ScriptCommand → Result Bool)
    → List ScriptCommand
    → List ScriptCommand
    → Result Bool
match_all check keys [] = ok true
match_all check [] (sig ∷ sigs) = ok false
match_all check (key ∷ keys) (sig ∷ sigs) = do
  valid ← check key sig
  match_all check keys (if valid then sigs else sig ∷ sigs)

module _ (c : Crypto) where
  unfoldable pub op_check_multi_sig : ScriptEngine → Result ScriptEngine
  unfolding pop push_data checked_count pop_many match_all
  op_check_multi_sig se = do
    (top, se1) ← pop se
    n ← checked_count (decode_num top.bytes) se1
    (sec_pubkeys, se2) ← pop_many n se1
    (top', se3) ← pop se2
    m ← checked_count (decode_num top'.bytes) se3
    (der_signatures, se4) ← pop_many m se3
    (filler, se5) ← pop se4
    matched ←
        match_all (λ key sig. check_sig_helper c key sig (set_bytes se5.z)) sec_pubkeys
          der_signatures
    ok (push_data (if matched then 0x01 ∷ [] else 0x00 ∷ []) se5)
