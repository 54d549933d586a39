-- ===== src/Transactions/Fetch.antt =====
-- The outputs that inputs spend: TxFetcher.Fetch of internal/transactions/fetch.go, and fetchTx, Value and
-- ScriptPubKey of internal/transactions/txinputs.go. The block explorer is a parameter.
use go_bitcoin.Base.{ℕ, zero, suc, Bool, List, [], ◌∷◌, if◌then◌else◌, bytes_equal}
use go_bitcoin.Base.{Result, ok, err, panic, ◌>>=◌, invalid_input}
use go_bitcoin.Base.Bytes.{bytes_buffer}
use go_bitcoin.Encoding.Hash.{Hashes}
use go_bitcoin.Script.Command.{Script}
use go_bitcoin.Transactions.TxIn.{TxIn}
use go_bitcoin.Transactions.TxOut.{TxOut}
use go_bitcoin.Transactions.Transaction.{Transaction, parse_transaction, hash}

-- The raw transaction that the explorer of the test network or of the main network answers with for
-- an id, decoded from hexadecimal digits, or the error of the request.
abbrev pub Explorer : Type 0
Explorer = Bool → List ℕ → Result (List ℕ)

-- An index out of range panics.
unfoldable pub nth {ℓ} : {A : Type ℓ} → List A → ℕ → Result A
nth [] i = panic
nth (x ∷ xs) zero = ok x
nth (x ∷ xs) (suc i) = nth xs i

module _ (h : Hashes) (explorer : Explorer) where
  -- A new fetcher, whose cache is empty, for each call
  unfoldable pub fetch : List ℕ → Bool → Result Transaction
  fetch tx_id testnet = do
    raw ← explorer testnet tx_id
    (tx, rest) ← parse_transaction bytes_buffer raw
    fetch_id ← hash h tx
    (if bytes_equal fetch_id tx_id
        then ok (record tx { is_testnet = testnet })
        else err invalid_input)

  unfoldable pub previous_output : TxIn → Bool → Result TxOut
  unfolding fetch nth
  previous_output t testnet = do tx ← fetch t.prev_tx testnet; nth tx.outputs t.prev_idx

  unfoldable pub value : TxIn → Bool → Result ℕ
  unfolding previous_output
  value t testnet = do out ← previous_output t testnet; ok out.amount

  unfoldable pub script_pub_key : TxIn → Bool → Result Script
  unfolding previous_output
  script_pub_key t testnet = do out ← previous_output t testnet; ok out.script_pub_key
