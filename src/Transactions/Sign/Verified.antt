-- ===== src/Transactions/Sign/Verified.antt =====
-- Inputs that are signed, and then verified.
use go_bitcoin.Base.{ℕ, zero, suc, ◌-◌, ◌^◌, ◌<◌, Bool, false, List, [], ◌∷◌, ◌++◌, append_assoc}
use go_bitcoin.Base.{◌==◌, leb, length, length-append, take, take-append}
use go_bitcoin.Base.{Result, ok, ◌>>=◌, ◌≡◌, refl, sym, ap, ◌∙◌, arith}
use go_bitcoin.Base.Bytes.{bytes_reader, le_encode, length-le_encode}
use go_bitcoin.Encoding.Hash.{Hashes}
use go_bitcoin.Eccmath.Signature.{Signature}
use go_bitcoin.Eccmath.Signature
use go_bitcoin.Eccmath.Signature.RoundTrip.{parse_signature-serialize}
use go_bitcoin.Script.Command.{Script, data_command, p2pkh_script}
use go_bitcoin.Script.Command.{}
use go_bitcoin.Script.Engine.CheckSig.{Crypto, check_sig_helper}
use go_bitcoin.Transactions.TxIn.{TxIn}
use go_bitcoin.Transactions.Transaction.{Transaction}
use go_bitcoin.Transactions.Fetch.{Explorer, nth, previous_output, script_pub_key}
use go_bitcoin.Transactions.SigHash.{
  sighash_all, is_p2sh_triplet, modified_inputs, modified_transaction, signed_script, sig_hash,
}
use go_bitcoin.Transactions.Sign.{set_script_sig}

-- Setting a script changes no other input and no length.
pub nth-set_script_sig :
    (i : ℕ) (s : Script) (ts : List TxIn) (input : TxIn)
    → nth ts i ≡ ok input
    → nth (set_script_sig i s ts) i ≡ ok (record input { script_sig = s })
unfolding nth set_script_sig
nth-set_script_sig i s [] input e = cc
nth-set_script_sig zero s (t ∷ ts) input e =
    ap (λ (r : Result TxIn). r >>= λ t. ok (record t { script_sig = s })) e
nth-set_script_sig (suc i) s (t ∷ ts) input e = nth-set_script_sig i s ts input e

pub length-set_script_sig :
    (i : ℕ) (s : Script) (ts : List TxIn) → length (set_script_sig i s ts) ≡ length ts
unfolding set_script_sig
length-set_script_sig i s [] = refl
length-set_script_sig zero s (t ∷ ts) = refl
length-set_script_sig (suc i) s (t ∷ ts) = ap suc (length-set_script_sig i s ts)

pub nth_lt :
    (i : ℕ) (ts : List TxIn) (input : TxIn) → nth ts i ≡ ok input → leb (length ts) i ≡ false
unfolding nth
nth_lt i [] input e = cc
nth_lt zero (t ∷ ts) input e = ground arith
nth_lt (suc i) (t ∷ ts) input e = ground (arith, nth_lt i ts input e)

-- The scripts of the inputs are no part of what is signed.
modified_inputs-set_script_sig :
    (k j i : ℕ) (code s : Script) (ts : List TxIn)
    → modified_inputs k j code (set_script_sig i s ts) ≡ modified_inputs k j code ts
unfolding modified_inputs set_script_sig
modified_inputs-set_script_sig k j i code s [] = refl
modified_inputs-set_script_sig k j zero code s (t ∷ ts) = refl
modified_inputs-set_script_sig k j (suc i) code s (t ∷ ts) =
    rw (modified_inputs-set_script_sig (suc k) j i code s ts) refl

p2pkh_no_p2sh : (h : List ℕ) → is_p2sh_triplet (p2pkh_script h) ≡ ok false
unfolding is_p2sh_triplet p2pkh_script
p2pkh_no_p2sh h = refl

-- The transaction with a script in one of its inputs
abbrev pub with_script : ℕ → Script → Transaction → Transaction
with_script i s t = record t { inputs = set_script_sig i s t.inputs }

module _ (h : Hashes) (explorer : Explorer) (t : Transaction) (i : ℕ) (s : Script) (input : TxIn)
    (hash : List ℕ) where
  signed_script-p2pkh :
      (other : Transaction) (any : TxIn)
      → script_pub_key h explorer any other.is_testnet ≡ ok (p2pkh_script hash)
      → signed_script h explorer other any ≡ ok (p2pkh_script hash)
  unfolding signed_script
  signed_script-p2pkh other any e = rw (e, p2pkh_no_p2sh hash) refl

  -- A script in an input that spends a P2PKH output changes nothing of what the input signs.
  pub sig_hash-set_script_sig :
      nth t.inputs i ≡ ok input
      → script_pub_key h explorer input t.is_testnet ≡ ok (p2pkh_script hash)
      → sig_hash h explorer (with_script i s t) i ≡ sig_hash h explorer t i
  unfolding sig_hash modified_transaction script_pub_key previous_output
  sig_hash-set_script_sig at e =
      let e' : script_pub_key h explorer (record input { script_sig = s }) t.is_testnet
          ≡ ok (p2pkh_script hash) =
        e in
      rw
        (
          nth-set_script_sig i s t.inputs input at,
          at,
          signed_script-p2pkh t input e,
          signed_script-p2pkh (with_script i s t) (record input { script_sig = s }) e',
          modified_inputs-set_script_sig 0 i i (p2pkh_script hash) s t.inputs,
        )
        refl

-- What the engine strips of the four bytes of the hash type is one byte; the parser skips the others.
take-signature :
    (sig : List ℕ)
    → take (length (sig ++ le_encode 4 sighash_all) - 1) (sig ++ le_encode 4 sighash_all)
      ≡ sig ++ (1 ∷ 0 ∷ 0 ∷ [])
unfolding le_encode
take-signature sig =
    let kept : List ℕ = sig ++ (1 ∷ 0 ∷ 0 ∷ []) in
    let len : length (sig ++ le_encode 4 sighash_all) - 1 ≡ length kept =
      omega (arith, length-append sig (1 ∷ 0 ∷ 0 ∷ []), length-append sig (1 ∷ 0 ∷ 0 ∷ 0 ∷ [])) in
    ap (λ n. take n (sig ++ le_encode 4 sighash_all)) len
    ∙ ap (take (length kept)) (sym (append_assoc sig (1 ∷ 0 ∷ 0 ∷ []) (0 ∷ [])))
    ∙ take-append kept (0 ∷ [])

module _ (c : Crypto) where
  pub check_sig_helper-serialize :
      (sig : Signature) (sec_pub_key : List ℕ) (key : c.PublicKey) (z : ℕ) (valid : Bool)
      → sig.r < 256 ^ 254
      → sig.s < 256 ^ 254
      → c.parse_public_key sec_pub_key ≡ ok key
      → c.verify key z sig ≡ ok valid
      → check_sig_helper c
          (data_command sec_pub_key)
          (data_command (Signature.serialize sig ++ le_encode 4 sighash_all))
          z
        ≡ ok valid
  unfolding check_sig_helper
  check_sig_helper-serialize sig sec_pub_key key z valid hr hs parsed verified =
      let der = Signature.serialize sig in
      let long : (length (der ++ le_encode 4 sighash_all) == 0) ≡ false =
        ground
          (arith, length-append der (le_encode 4 sighash_all), length-le_encode 4 sighash_all) in
      rw
        (
          long,
          take-signature der,
          parse_signature-serialize bytes_reader sig (1 ∷ 0 ∷ 0 ∷ []) hr hs,
          parsed,
          verified,
        )
        refl
