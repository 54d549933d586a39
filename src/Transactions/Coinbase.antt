-- ===== src/Transactions/Coinbase.antt =====
-- isCoinbase and coinbaseHeight of internal/transactions/transaction.go.
use go_bitcoin.Base.{
  ℕ, ◌-◌, ◌^◌, Bool, false, ◌&&◌, List, [], ◌∷◌, ◌==◌, if◌then◌else◌, bytes_equal,
}
use go_bitcoin.Base.{Result, ok, ◌>>=◌}
use go_bitcoin.Base.Bytes.{copy_into}
use go_bitcoin.Script.Num.{decode_num}
use go_bitcoin.Transactions.TxIn.{TxIn, coinbase_prevout}
use go_bitcoin.Transactions.Transaction.{Transaction}
use go_bitcoin.Transactions.Fetch.{nth}

-- The only input, against 32 zero bytes and the index of a coinbase input
is_coinbase_only : List TxIn → Bool
is_coinbase_only (t ∷ []) =
    bytes_equal t.prev_tx (copy_into 32 []) && t.prev_idx == coinbase_prevout
is_coinbase_only _ = false

unfoldable pub is_coinbase : Transaction → Bool
unfolding is_coinbase_only
is_coinbase t = is_coinbase_only t.inputs

-- -1, as the bit pattern of an int64, where it is no coinbase transaction
unfoldable pub coinbase_height : Transaction → Result ℕ
unfolding is_coinbase
coinbase_height t =
    let height = (do
      input ← nth t.inputs 0
      element ← nth input.script_sig 0
      ok (decode_num element.bytes)) in
    if is_coinbase t then height else ok (2 ^ 64 - 1)
