-- ===== src/Transactions/Sign/Valid.antt =====
-- SignInput, and VerifyInput on what it leaves.
use go_bitcoin.Base.{ℕ, ◌^◌, ◌≤◌, ◌<◌, Bool, List, [], ◌++◌, length, length-append}
use go_bitcoin.Base.{bytes_equal_self, ok, ◌≡◌, refl, ◌∙◌, arith}
use go_bitcoin.Base.Bytes.{le_encode, length-le_encode}
use go_bitcoin.Base.BigInt.{set_bytes}
use go_bitcoin.Encoding.Hash.{hash160}
use go_bitcoin.Eccmath.Signature.{Signature}
use go_bitcoin.Eccmath.Signature
use go_bitcoin.Script.Command.{Script, combine, p2pkh_script}
use go_bitcoin.Script.Command.{
  is_p2wpkh_script_pub_key, is_p2wsh_script_pub_key, is_p2sh_script_pub_key,
}
use go_bitcoin.Script.Engine.CheckSig.{Crypto}
use go_bitcoin.Script.Engine.Execute.{evaluate, evaluate_with_context}
use go_bitcoin.Script.Engine.PayToPubKeyHash.{evaluate-p2pkh}
use go_bitcoin.Transactions.TxIn.{TxIn}
use go_bitcoin.Transactions.Transaction.{Transaction}
use go_bitcoin.Transactions.Fetch.{Explorer, nth, previous_output, script_pub_key}
use go_bitcoin.Transactions.SigHash.{sighash_all, sig_hash}
use go_bitcoin.Transactions.Verify.{checked_input, signed, verify_input}
use go_bitcoin.Transactions.Sign.{PrivateKey, set_script_sig, key_script_sig, sign_input}
use go_bitcoin.Transactions.Sign.Verified.{
  nth-set_script_sig, length-set_script_sig, nth_lt, with_script, sig_hash-set_script_sig,
  check_sig_helper-serialize,
}

module _ (c : Crypto) (explorer : Explorer) (t : Transaction) (i : ℕ) (input : TxIn) where
  -- The input spends a P2PKH output of the key's hash.
  abbrev pub Spends : List ℕ → Type 0
  Spends sec_pub_key =
      (nth t.inputs i ≡ ok input)
      × (script_pub_key c.hashes explorer input t.is_testnet
          ≡ ok (p2pkh_script (hash160 c.hashes sec_pub_key)))

  -- What the key signs of a digest is two numbers below 256^254, and a check of it gives `valid`.
  abbrev pub Signs : PrivateKey → List ℕ → List ℕ → Bool → Type 0
  Signs key sec_pub_key z valid =
      (sig : Signature) × (pub_key : c.PublicKey) × (key.sign_hash z ≡ ok sig)
      × (sig.r < 256 ^ 254)
      × (sig.s < 256 ^ 254)
      × (c.parse_public_key sec_pub_key ≡ ok pub_key)
      × (c.verify pub_key (set_bytes z) sig ≡ ok valid)

  -- The input that is verified is the one with the new script.
  checked_input-set_script_sig :
      (s : Script)
      → nth t.inputs i ≡ ok input
      → checked_input (set_script_sig i s t.inputs) i ≡ ok (record input { script_sig = s })
  unfolding checked_input
  checked_input-set_script_sig s at =
      rw
        (
          length-set_script_sig i s t.inputs,
          nth_lt i t.inputs input at,
          nth-set_script_sig i s t.inputs input at,
        )
        refl

  -- A P2PKH output takes the way of the old form.
  signed-p2pkh :
      (tx : Transaction) (any : TxIn) (hash z : List ℕ)
      → sig_hash c.hashes explorer tx i ≡ ok z
      → signed c explorer i any (p2pkh_script hash) tx ≡ (ok (z, []), tx)
  unfolding signed p2pkh_script is_p2wpkh_script_pub_key is_p2wsh_script_pub_key
      is_p2sh_script_pub_key
  signed-p2pkh tx any hash z e = rw e refl

  evaluate_without_context :
      (fuel : ℕ) (s : Script) (z : List ℕ)
      → evaluate_with_context c fuel s z [] 0 0 ≡ evaluate c fuel s z
  unfolding evaluate_with_context evaluate
  evaluate_without_context fuel s z = refl

  -- The script in an input is no part of what it spends.
  script_alike :
      (any : TxIn) (s : Script) {prev : Script}
      → script_pub_key c.hashes explorer any t.is_testnet ≡ ok prev
      → script_pub_key c.hashes explorer (record any { script_sig = s }) t.is_testnet ≡ ok prev
  unfolding script_pub_key previous_output
  script_alike any s e = e

  -- An input that spends a P2PKH output of the key's hash, signed with the key, is given a script with
  -- which VerifyInput ends, after at most eight rounds of the engine, with the verdict of the
  -- check of the key's signature of the input's digest; the digest is the one before signing, since
  -- the new script is no part of it, and the transaction is left as it was signed.
  pub verify_input-sign_input :
      (key : PrivateKey) (compressed : Bool) (z : List ℕ) (valid : Bool)
      → Spends (key.public_key compressed)
      → sig_hash c.hashes explorer t i ≡ ok z
      → Signs key (key.public_key compressed) z valid
      → (t' : Transaction) × (sign_input c.hashes explorer key compressed i t ≡ (ok tt, t'))
        × ((fuel : ℕ) → 8 ≤ fuel → verify_input c explorer fuel i t' ≡ (ok valid, t'))
  unfolding sign_input verify_input combine key_script_sig
  verify_input-sign_input key compressed z valid (at, spends) digest
        (sig, pub_key, signs, hr, hs, parsed, verified) =
      let sec = key.public_key compressed in
      let s = key_script_sig sig sec in
      let t' = with_script i s t in
      let input' : TxIn = record input { script_sig = s } in
      let hash = hash160 c.hashes sec in
      let der = Signature.serialize sig in
      let spends' : script_pub_key c.hashes explorer input' t'.is_testnet ≡ ok (p2pkh_script hash) =
        script_alike input s spends in
      let digest' : sig_hash c.hashes explorer t' i ≡ ok z =
        sig_hash-set_script_sig c.hashes explorer t i s input hash at spends ∙ digest in
      let long : 1 ≤ length (der ++ le_encode 4 sighash_all) =
        omega
          (arith, length-append der (le_encode 4 sighash_all), length-le_encode 4 sighash_all) in
      (
        t',
        rw (digest, signs) refl,
        (λ fuel enough.
            rw
              (
                checked_input-set_script_sig s at,
                spends',
                signed-p2pkh t' input' hash z digest',
                evaluate_without_context fuel (combine s (p2pkh_script hash)) z,
                evaluate-p2pkh c (der ++ le_encode 4 sighash_all) sec hash z fuel valid enough long
                    (check_sig_helper-serialize c sig sec pub_key (set_bytes z) valid hr hs parsed
                      verified),
                bytes_equal_self hash,
              )
              refl),
      )
