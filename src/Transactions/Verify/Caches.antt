-- ===== src/Transactions/Verify/Caches.antt =====
-- Verifying a transaction and its cached digests.
use go_bitcoin.Base.{ℕ, suc, Bool, true, false, Option, none, some, List, [], ◌∷◌, if◌then◌else◌}
use go_bitcoin.Base.{Result, ok, err, panic, out_of_fuel, ◌≡◌, refl, ◌∙◌}
use go_bitcoin.Script.Command.{Script, combine}
use go_bitcoin.Script.Command.{is_p2wpkh_script_pub_key}
use go_bitcoin.Script.Engine.CheckSig.{Crypto}
use go_bitcoin.Transactions.TxIn.{TxIn}
use go_bitcoin.Transactions.Transaction.{Transaction}
use go_bitcoin.Transactions.Fetch.{Explorer, script_pub_key}
use go_bitcoin.Transactions.Fee.{fee}
use go_bitcoin.Transactions.SigHash.{sig_hash, last_command, parse_raw_script}
use go_bitcoin.Script.Engine.Execute.{evaluate_with_context}
use go_bitcoin.Transactions.SegwitHash.{sig_hash_bip143}
use go_bitcoin.Transactions.SegwitHash.Caches.{IsCached, uncached, sig_hash_bip143-Refines}
use go_bitcoin.Transactions.Run.{Run, pure, ask, after, ◌>>=◌}
use go_bitcoin.Transactions.Verify.{
  last_item, checked_input, with_witness_script, with_redeem_script, signed, verify_input,
  verify_inputs, verify,
}

module _ (c : Crypto) (explorer : Explorer) where
  -- The method leaves right caches and the fields as they are, whatever its result.
  record Keeps {ℓ} {A : Type ℓ} (m : Run A) : Type 0 where
    kept :
        (t : Transaction)
        → IsCached c.hashes t
        → IsCached c.hashes (m t).1 × (uncached (m t).1 ≡ uncached t)

  Keeps-ask {ℓ} : {A : Type ℓ} (f : Transaction → Result A) → Keeps (ask f)
  Keeps-ask f = record { kept = λ t cached. (cached, refl) }

  Keeps-pure {ℓ} : {A : Type ℓ} (a : A) → Keeps (pure a)
  Keeps-pure a = record { kept = λ t cached. (cached, refl) }

  Keeps-after {ℓ κ} :
      {A : Type ℓ} {B : Type κ} (t : Transaction) (x : Result A × Transaction) (k : A → Run B)
      → IsCached c.hashes x.1 × (uncached x.1 ≡ uncached t)
      → ((a : A) → Keeps (k a))
      → IsCached c.hashes (after k x).1 × (uncached (after k x).1 ≡ uncached t)
  Keeps-after t (ok a, t') k (cached, same) h =
      let (cached', same') = (h a).kept t' cached in (cached', same' ∙ same)
  Keeps-after t (err e, t') k p h = p
  Keeps-after t (panic, t') k p h = p
  Keeps-after t (out_of_fuel, t') k p h = p

  Keeps-bind {ℓ κ} :
      {A : Type ℓ} {B : Type κ} (m : Run A) (k : A → Run B)
      → Keeps m
      → ((a : A) → Keeps (k a))
      → Keeps (m >>= k)
  Keeps-bind m k hm hk = record { kept = λ t cached. Keeps-after t (m t) k (hm.kept t cached) hk }

  Keeps-if {ℓ} :
      {A : Type ℓ} (b : Bool) (m n : Run A) → Keeps m → Keeps n → Keeps (if b then m else n)
  Keeps-if true m n hm hn = hm
  Keeps-if false m n hm hn = hn

  Keeps-sig_hash_bip143 :
      (i : ℕ) (redeem_script witness_script : Option Script)
      → Keeps (sig_hash_bip143 c.hashes explorer i redeem_script witness_script)
  Keeps-sig_hash_bip143 i redeem_script witness_script = record {
    kept = λ t cached.
        let (e, cached', same) =
          sig_hash_bip143-Refines c.hashes explorer i redeem_script witness_script t cached in
        (cached', same);
  }

  Keeps-with_witness_script :
      (i : ℕ) (input : TxIn) → Keeps (with_witness_script c explorer i input)
  unfolding with_witness_script
  Keeps-with_witness_script i input =
      Keeps-bind _ _ (Keeps-ask λ t. last_item input.witness) λ command.
        Keeps-bind _ _ (Keeps-ask λ t. parse_raw_script command) λ witness_script.
          Keeps-bind _ _ (Keeps-sig_hash_bip143 i none (some witness_script))
            λ z. Keeps-pure (z, input.witness)

  Keeps-with_redeem_script : (i : ℕ) (input : TxIn) → Keeps (with_redeem_script c explorer i input)
  unfolding with_redeem_script
  Keeps-with_redeem_script i input =
      Keeps-bind _ _ (Keeps-ask λ t. last_command input.script_sig) λ command.
        Keeps-bind _ _ (Keeps-ask λ t. parse_raw_script command.bytes) λ redeem_script.
          Keeps-if _ _ _
            (Keeps-bind _ _ (Keeps-sig_hash_bip143 i (some redeem_script) none)
              λ z. Keeps-pure (z, input.witness))
            (Keeps-if _ _ _ (Keeps-with_witness_script i input) (
              Keeps-bind _ _ (Keeps-sig_hash_bip143 i (some redeem_script) none)
                λ z. Keeps-pure (z, [])))

  Keeps-signed : (i : ℕ) (input : TxIn) (spk : Script) → Keeps (signed c explorer i input spk)
  unfolding signed
  Keeps-signed i input spk =
      Keeps-if (is_p2wpkh_script_pub_key spk) _ _
        (Keeps-bind _ _ (Keeps-sig_hash_bip143 i none none) λ z. Keeps-pure (z, input.witness))
        (Keeps-if _ _ _ (Keeps-with_redeem_script i input) (
          Keeps-if _ _ _ (Keeps-with_witness_script i input) (
            Keeps-bind _ _ (Keeps-ask λ t. sig_hash c.hashes explorer t i)
              λ z. Keeps-pure (z, []))))

  Keeps-verify_input : (fuel i : ℕ) → Keeps (verify_input c explorer fuel i)
  unfolding verify_input
  Keeps-verify_input fuel i = Keeps-bind _ _ (Keeps-ask λ t. checked_input t.inputs i) λ input.
      Keeps-bind _ _ (Keeps-ask λ t. script_pub_key c.hashes explorer input t.is_testnet) λ spk.
        Keeps-bind _ _ (Keeps-signed i input spk) λ (z, witness).
          Keeps-ask λ t. evaluate_with_context c fuel (combine input.script_sig spk) z witness 0 0

  Keeps-verify_inputs : (fuel i : ℕ) (ts : List TxIn) → Keeps (verify_inputs c explorer fuel i ts)
  unfolding verify_inputs
  Keeps-verify_inputs fuel i [] = Keeps-pure true
  Keeps-verify_inputs fuel i (t ∷ ts) =
      Keeps-bind _ _ (Keeps-verify_input fuel i)
        λ valid. Keeps-if valid _ _ (Keeps-verify_inputs fuel (suc i) ts) (Keeps-pure false)

  -- Verifying a transaction whose cached digests are those of its fields, or that has none, leaves such
  -- digests and changes no field, whether the verdict is true, false or an error.
  pub verify-IsCached :
      (fuel : ℕ) (t : Transaction)
      → IsCached c.hashes t
      → IsCached c.hashes (verify c explorer fuel t).1
        × (uncached (verify c explorer fuel t).1 ≡ uncached t)
  unfolding verify
  verify-IsCached fuel t cached =
      let step : Keeps (verify c explorer fuel) =
        Keeps-bind _ _ (Keeps-ask λ t. fee c.hashes explorer t t.is_testnet) (λ paid.
          Keeps-bind _ _ (Keeps-ask λ t. ok t.inputs)
            λ inputs. Keeps-verify_inputs fuel 0 inputs) in
      step.kept t cached
