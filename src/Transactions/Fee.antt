-- ===== src/Transactions/Fee.antt =====
-- Fee of internal/transactions/transaction.go: sums of uint64, which wrap.
pub mod Exact
use go_bitcoin.Base.{ℕ, ◌+◌, ◌-◌, ◌%◌, ◌^◌, Bool, List, [], ◌∷◌}
use go_bitcoin.Base.{if◌then◌else◌, ltb, Result, ok, err, ◌>>=◌, invalid_input}
use go_bitcoin.Encoding.Hash.{Hashes}
use go_bitcoin.Transactions.TxIn.{TxIn}
use go_bitcoin.Transactions.TxOut.{TxOut}
use go_bitcoin.Transactions.Transaction.{Transaction}
use go_bitcoin.Transactions.Fetch.{Explorer, value}

-- The sum so far, and the outputs that are left
unfoldable pub output_sum : ℕ → List TxOut → ℕ
output_sum sum [] = sum
output_sum sum (t ∷ ts) = output_sum ((sum + t.amount) % 2 ^ 64) ts

module _ (h : Hashes) (explorer : Explorer) where
  unfoldable pub input_sum : ℕ → Bool → List TxIn → Result ℕ
  input_sum sum testnet [] = ok sum
  input_sum sum testnet (t ∷ ts) = do
    val ← value h explorer t testnet
    input_sum ((sum + val) % 2 ^ 64) testnet ts

  unfoldable pub fee : Transaction → Bool → Result ℕ
  unfolding input_sum output_sum
  fee t testnet = do
    inputs ← input_sum 0 testnet t.inputs
    (let outputs = output_sum 0 t.outputs in
        if ltb inputs outputs then err invalid_input else ok (inputs - outputs))
