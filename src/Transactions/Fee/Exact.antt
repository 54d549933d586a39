-- ===== src/Transactions/Fee/Exact.antt =====
-- The fee, against sums that do not wrap.
use go_bitcoin.Base.{ℕ, ◌+◌, ◌-◌, ◌%◌, ◌^◌, ◌<◌, Bool, List, [], ◌∷◌, if◌then◌else◌, ltb}
use go_bitcoin.Base.{
  Result, ok, err, ◌>>=◌, bind_in_steps, invalid_input, ◌≡◌, refl, ap, ◌∙◌, arith,
}
use go_bitcoin.Encoding.Hash.{Hashes}
use go_bitcoin.Transactions.TxIn.{TxIn}
use go_bitcoin.Transactions.TxOut.{TxOut}
use go_bitcoin.Transactions.Transaction.{Transaction}
use go_bitcoin.Transactions.Fetch.{Explorer, value}
use go_bitcoin.Transactions.Fee.{output_sum, input_sum, fee}

abbrev pub output_total : List TxOut → ℕ
output_total [] = 0
output_total (t ∷ ts) = t.amount + output_total ts

output_sum-eq :
    (sum : ℕ) (ts : List TxOut) → output_sum (sum % 2 ^ 64) ts ≡ (sum + output_total ts) % 2 ^ 64
unfolding output_sum
output_sum-eq sum [] = ground arith
output_sum-eq sum (t ∷ ts) =
    let step : (sum % 2 ^ 64 + t.amount) % 2 ^ 64 ≡ (sum + t.amount) % 2 ^ 64 = omega arith in
    let total : (sum + t.amount) + output_total ts ≡ sum + output_total (t ∷ ts) = omega arith in
    ap (λ n. output_sum n ts) step ∙ output_sum-eq (sum + t.amount) ts ∙ ap (λ n. n % 2 ^ 64) total

module _ (h : Hashes) (explorer : Explorer) where
  abbrev pub input_total : Bool → List TxIn → Result ℕ
  input_total testnet [] = ok 0
  input_total testnet (t ∷ ts) = do
    val ← value h explorer t testnet
    total ← input_total testnet ts
    ok (val + total)

  input_sum-eq :
      (sum : ℕ) (testnet : Bool) (ts : List TxIn)
      → input_sum h explorer (sum % 2 ^ 64) testnet ts
        ≡ (input_total testnet ts >>= λ total. ok ((sum + total) % 2 ^ 64))
  unfolding input_sum
  input_sum-eq sum testnet [] = ground arith
  input_sum-eq sum testnet (t ∷ ts) = bind_in_steps (value h explorer t testnet) _ _ _ λ val.
      let step : (sum % 2 ^ 64 + val) % 2 ^ 64 ≡ (sum + val) % 2 ^ 64 = omega arith in
      let total_eq : (total : ℕ) → (sum + val + total) % 2 ^ 64 ≡ (sum + (val + total)) % 2 ^ 64 =
        λ total. ap (λ n. n % 2 ^ 64) (omega arith) in
      ap (λ n. input_sum h explorer n testnet ts) step
      ∙ input_sum-eq (sum + val) testnet ts
      ∙ bind_in_steps (input_total testnet ts) _ _ _ λ total. ap ok (total_eq total)

  -- Where the values of the inputs that are spent can be fetched, and they and the amounts of the
  -- outputs both have a sum below 2^64, Fee is their difference, and an error exactly when the outputs
  -- have the larger sum.
  pub fee_exact :
      (t : Transaction) (testnet : Bool) (spent : ℕ)
      → input_total testnet t.inputs ≡ ok spent
      → spent < 2 ^ 64
      → output_total t.outputs < 2 ^ 64
      → fee h explorer t testnet ≡ (
          if ltb spent (output_total t.outputs)
          then err invalid_input
          else ok (spent - output_total t.outputs))
  unfolding fee
  fee_exact t testnet spent fetched small small' =
      let unit : 0 + spent ≡ spent = omega arith in
      let ins : input_sum h explorer 0 testnet t.inputs ≡ ok (spent % 2 ^ 64) =
        input_sum-eq 0 testnet t.inputs
        ∙ ap (λ (r : Result ℕ). r >>= λ total. ok ((0 + total) % 2 ^ 64)) fetched
        ∙ ap (λ (n : ℕ). ok (n % 2 ^ 64)) unit in
      let outs : output_sum 0 t.outputs ≡ output_total t.outputs =
        output_sum-eq 0 t.outputs ∙ omega arith in
      let in_range : spent % 2 ^ 64 ≡ spent = omega arith in rw (ins, outs, in_range) refl
