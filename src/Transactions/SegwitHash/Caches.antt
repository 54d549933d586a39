-- ===== src/Transactions/SegwitHash/Caches.antt =====
-- The cached digests of a transaction, and the digest of BIP143 without them.
use go_bitcoin.Base.{ℕ, Option, none, some, List, [], ◌++◌, reverse, ◌⊎◌, inl, inr}
use go_bitcoin.Base.{
  Result, ok, err, panic, out_of_fuel, ◌>>=◌, ◌≡◌, refl, sym, ap, ap₂, subst, ◌∙◌,
}
use go_bitcoin.Base.Bytes.{le_encode}
use go_bitcoin.Base.Codes.{write_many}
use go_bitcoin.Encoding.Hash.{Hashes, hash256}
use go_bitcoin.Script.Command.{Script}
use go_bitcoin.Transactions.TxIn.{TxIn}
use go_bitcoin.Transactions.TxOut
use go_bitcoin.Transactions.Transaction.{Transaction}
use go_bitcoin.Transactions.Fetch.{Explorer, nth, value}
use go_bitcoin.Transactions.SigHash.{sighash_all}
use go_bitcoin.Transactions.ScriptCode.{script_code}
use go_bitcoin.Transactions.Run.{Run, after}
use go_bitcoin.Transactions.SegwitHash.{
  all_prev_outs, all_sequence, or_nil, hash_prev_outs, hash_sequence, hash_outputs, sig_hash_bip143,
  fill_outputs, outputs_digest, fill_prev_outs, fill_sequence,
}

abbrev bytes_of : Result (List ℕ) → List ℕ
bytes_of (ok bs) = bs
bytes_of _ = []

-- A transaction without its cached digests
abbrev pub uncached : Transaction → Transaction
uncached t = record t {
  cached_hash_prev_outs = none;
  cached_hash_sequence = none;
  cached_hash_outputs = none;
}

module _ (h : Hashes) where
  -- The two digests of the inputs are cached together or not at all, and what is cached is the digest of
  -- the fields as they are.
  pub record IsCached (t : Transaction) : Type 0 where
    pub inputs_cached :
        ((t.cached_hash_prev_outs ≡ none) × (t.cached_hash_sequence ≡ none))
        ⊎ ((t.cached_hash_prev_outs ≡ some (hash256 h (all_prev_outs t.inputs)))
            × (t.cached_hash_sequence ≡ some (hash256 h (all_sequence t.inputs))))
    pub outputs_cached :
        (t.cached_hash_outputs ≡ none)
        ⊎ ((bs : List ℕ) × (write_many TxOut.serialize t.outputs ≡ ok bs)
            × (t.cached_hash_outputs ≡ some (hash256 h bs)))

  abbrev pub outputs_digest_of : Transaction → Result (List ℕ)
  outputs_digest_of t = do outs ← write_many TxOut.serialize t.outputs; ok (hash256 h outs)

  -- The preimage of the digest, in the order of BIP143, from the fields alone.
  unfoldable pub bip143_digest :
      Explorer → Transaction → ℕ → Option Script → Option Script → Result (List ℕ)
  bip143_digest explorer t input_index redeem_script witness_script = do
    txin ← nth t.inputs input_index
    code ← script_code h explorer txin redeem_script witness_script t
    val ← value h explorer txin t.is_testnet
    outs ← outputs_digest_of t
    ok (
        hash256 h (
          le_encode 4 t.version
          ++ (hash256 h (all_prev_outs t.inputs)
              ++ (hash256 h (all_sequence t.inputs)
                  ++ (reverse txin.prev_tx
                      ++ (le_encode 4 txin.prev_idx
                          ++ (code
                              ++ (le_encode 8 val
                                  ++ (le_encode 4 txin.sequence
                                      ++ (outs
                                          ++ (le_encode 4 t.locktime
                                              ++ le_encode 4 sighash_all)))))))))))

  -- The outcome is the one wanted; the caches are right and nothing else has changed.
  abbrev pub Refines {ℓ} : {A : Type ℓ} → Transaction → Result A × Transaction → Result A → Type ℓ
  Refines t (a, t') wanted = (a ≡ wanted) × IsCached t' × (uncached t' ≡ uncached t)

  Refines-after {ℓ κ} :
      {A : Type ℓ} {B : Type κ} (t : Transaction) (x : Result A × Transaction) (wanted : Result A)
      (k : A → Run B) (next : A → Result B)
      → Refines t x wanted
      → ((a : A) (t' : Transaction)
          → IsCached t'
          → uncached t' ≡ uncached t
          → Refines t (k a t') (next a))
      → Refines t (after k x) (wanted >>= next)
  Refines-after t (ok a, t') wanted k next (e, c, u) f =
      subst (λ w. Refines t (k a t') (w >>= next)) e (f a t' c u)
  Refines-after t (err e', t') wanted k next (e, c, u) f = (ap (λ w. w >>= next) e, c, u)
  Refines-after t (panic, t') wanted k next (e, c, u) f = (ap (λ w. w >>= next) e, c, u)
  Refines-after t (out_of_fuel, t') wanted k next (e, c, u) f = (ap (λ w. w >>= next) e, c, u)

  hash_prev_outs-Refines :
      (t : Transaction)
      → IsCached t
      → Refines t (hash_prev_outs h t) (ok (hash256 h (all_prev_outs t.inputs)))
  unfolding hash_prev_outs
  hash_prev_outs-Refines t c = elim c.inputs_cached [
    | inl (e, e') ↦
        rw e (
          refl,
          record { inputs_cached = inr (refl, refl); outputs_cached = c.outputs_cached },
          refl,
        )
    | inr (e, e') ↦
        rw e
          (refl, record { inputs_cached = inr (refl, e'); outputs_cached = c.outputs_cached }, refl)
  ]

  hash_sequence-Refines :
      (t : Transaction)
      → IsCached t
      → Refines t (hash_sequence h t) (ok (hash256 h (all_sequence t.inputs)))
  unfolding hash_sequence hash_prev_outs
  hash_sequence-Refines t c = elim c.inputs_cached [
    | inl (e, e') ↦
        rw (e', e)
          (
            refl,
            record { inputs_cached = inr (refl, refl); outputs_cached = c.outputs_cached },
            refl,
          )
    | inr (e, e') ↦
        rw e'
          (refl, record { inputs_cached = inr (e, refl); outputs_cached = c.outputs_cached }, refl)
  ]

  fill_outputs-Refines :
      (t : Transaction) (r : Result (List ℕ))
      → IsCached t
      → write_many TxOut.serialize t.outputs ≡ r
      → Refines t (fill_outputs h r t) (r >>= λ outs. ok (hash256 h outs))
  unfolding fill_outputs
  fill_outputs-Refines t (ok bs) c written = (
    refl,
    record { inputs_cached = c.inputs_cached; outputs_cached = inr (bs, written, refl) },
    refl,
  )
  fill_outputs-Refines t (err e) c written = (refl, c, refl)
  fill_outputs-Refines t panic c written = (refl, c, refl)
  fill_outputs-Refines t out_of_fuel c written = (refl, c, refl)

  hash_outputs-Refines :
      (t : Transaction) → IsCached t → Refines t (hash_outputs h t) (outputs_digest_of t)
  unfolding hash_outputs
  hash_outputs-Refines t c = elim c.outputs_cached [
    | inl e ↦
        subst (λ o. Refines t (outputs_digest h o t) (outputs_digest_of t)) (sym e)
          (fill_outputs-Refines t (write_many TxOut.serialize t.outputs) c refl)
    | inr (bs, written, e) ↦
        rw (e, written)
          (
            refl,
            record { inputs_cached = c.inputs_cached; outputs_cached = inr (bs, written, refl) },
            refl,
          )
  ]

  outs_step :
      (t t' : Transaction)
      → IsCached t'
      → uncached t' ≡ uncached t
      → Refines t (hash_outputs h t') (outputs_digest_of t)
  outs_step t t' c u =
      let (e, c', u') = hash_outputs-Refines t' c in
      (e ∙ ap (λ (t : Transaction). outputs_digest_of t) u, c', u' ∙ u)

  code_alike :
      (explorer : Explorer) (txin : TxIn) (redeem_script witness_script : Option Script)
      (t t' : Transaction)
      → uncached t' ≡ uncached t
      → script_code h explorer txin redeem_script witness_script t'
        ≡ script_code h explorer txin redeem_script witness_script t
  unfolding script_code
  code_alike explorer txin redeem (some w) t t' u = refl
  code_alike explorer txin (some r) none t t' u = refl
  code_alike explorer txin none none t t' u =
      ap (λ (t : Transaction). script_code h explorer txin none none t) u

  module _ (explorer : Explorer) (i : ℕ) (redeem_script witness_script : Option Script) where
    pub sig_hash_bip143-Refines :
        (t : Transaction)
        → IsCached t
        → Refines t
            (sig_hash_bip143 h explorer i redeem_script witness_script t)
            (bip143_digest explorer t i redeem_script witness_script)
    unfolding sig_hash_bip143 bip143_digest
    sig_hash_bip143-Refines t c =
        Refines-after t (nth t.inputs i, t) (nth t.inputs i) _ _ (refl, c, refl)
          λ txin t1 c1 u1.
            let (e2, c2, u2) = hash_prev_outs-Refines t1 c1 in
            let t2 = (hash_prev_outs h t1).1 in
            let (e3, c3, u3) = hash_sequence-Refines t2 c2 in
            let t3 = (hash_sequence h t2).1 in
            let same3 = u3 ∙ u2 ∙ u1 in
            Refines-after t (script_code h explorer txin redeem_script witness_script t3, t3)
              (script_code h explorer txin redeem_script witness_script t) _ _
              (code_alike explorer txin redeem_script witness_script t t3 same3, c3, same3)
              λ code t4 c4 u4.
                Refines-after t (value h explorer txin t4.is_testnet, t4)
                  (value h explorer txin t.is_testnet) _ _
                  (ap (λ (t : Transaction). value h explorer txin t.is_testnet) u4, c4, u4)
                  λ val t5 c5 u5.
                    Refines-after t (hash_outputs h t5) (outputs_digest_of t) _ _
                      (outs_step t t5 c5 u5)
                      λ outs t6 c6 u6.
                        let v : t1.version ≡ t.version = ap (λ (t : Transaction). t.version) u1 in
                        let p : or_nil
                              (fill_prev_outs h t1.cached_hash_prev_outs t1).cached_hash_prev_outs
                            ≡ hash256 h (all_prev_outs t.inputs) =
                          ap bytes_of e2
                          ∙ ap (λ (t : Transaction). hash256 h (all_prev_outs t.inputs)) u1 in
                        let s : or_nil
                              (fill_sequence h t2.cached_hash_sequence t2).cached_hash_sequence
                            ≡ hash256 h (all_sequence t.inputs) =
                          ap bytes_of e3
                          ∙ ap (λ (t : Transaction). hash256 h (all_sequence t.inputs)) (u2 ∙ u1) in
                        let l : t6.locktime ≡ t.locktime =
                          ap (λ (t : Transaction). t.locktime) u6 in
                        (
                          rw (p, s)
                              (ap₂
                                (λ (v l : ℕ). ok (
                                  hash256 h (
                                    le_encode 4 v
                                    ++ (hash256 h (all_prev_outs t.inputs)
                                        ++ (hash256 h (all_sequence t.inputs)
                                            ++ (reverse txin.prev_tx
                                                ++ (le_encode 4 txin.prev_idx
                                                    ++ (code
                                                        ++ (le_encode 8 val
                                                            ++ (le_encode 4 txin.sequence
                                                            ++ (outs
                                                            ++ (le_encode 4 l
                                                            ++ le_encode 4 sighash_all))))))))))))
                                v l),
                          c6,
                          u6,
                        )
