-- ===== src/Network/Mempool.antt =====
-- internal/mempool: the transactions that wait for a block, and short ids.
use go_bitcoin.Base.{
  ℕ, Bool, false, ◌||◌, Option, none, some, List, [], ◌∷◌, ◌++◌, reverse, take, drop,
}
use go_bitcoin.Base.{if◌then◌else◌, bytes_equal, Result, ok, err, panic, out_of_fuel, ◌>>=◌}
use go_bitcoin.Base.Bytes.{le_encode, le_decode}
use go_bitcoin.Encoding.Hash.{Hashes}
use go_bitcoin.Block.Header.{Block}
use go_bitcoin.Block.Header
use go_bitcoin.Transactions.Transaction.{Transaction, hash, witness_hash}

-- The map from ids to transactions, in the order in which a range over it comes by them.
abbrev pub Mempool : Type 0
Mempool = List (List ℕ × Transaction)

unfoldable pub remove : List ℕ → Mempool → Mempool
remove txid [] = []
remove txid ((id, tx) ∷ pool) =
    let rest = remove txid pool in if bytes_equal id txid then rest else (id, tx) ∷ rest

unfoldable pub get : List ℕ → Mempool → Option Transaction
get txid [] = none
get txid ((id, tx) ∷ pool) =
    let rest = get txid pool in if bytes_equal id txid then some tx else rest

unfoldable pub all : Mempool → List Transaction
all [] = []
all ((id, tx) ∷ pool) = tx ∷ all pool

-- SHA-256 of the header and the nonce gives the two keys.
unfoldable pub calc_short_id_keys : Hashes → Block → ℕ → ℕ × ℕ
calc_short_id_keys h header nonce =
    let hash_bytes = h.sha256 (Header.serialize header ++ le_encode 8 nonce) in
    (le_decode (take 8 hash_bytes), le_decode (take 8 (drop 8 hash_bytes)))

-- The six low bytes. SipHash-2-4 is an argument, with its keys.
unfoldable pub calculate_short_id : (ℕ → ℕ → List ℕ → ℕ) → List ℕ → ℕ → ℕ → List ℕ
calculate_short_id sip_hash txid k0 k1 = le_encode 6 (sip_hash k0 k1 txid)

unfoldable pub is_requested : List (List ℕ) → List ℕ → Bool
is_requested [] sid = false
is_requested (s ∷ sids) sid = bytes_equal s sid || is_requested sids sid

module _ (h : Hashes) where
  unfoldable pub add : Transaction → Mempool → Result Mempool
  unfolding remove
  add tx pool = do txid ← hash h tx; ok ((txid, tx) ∷ remove txid pool)

  -- A transaction that has no hash is passed over.
  abbrev continue_without : Result (List ℕ) → Mempool → (List ℕ → Mempool) → Result Mempool
  continue_without (ok bs) found k = ok (k bs)
  continue_without (err e) found k = ok found
  continue_without panic found k = panic
  continue_without out_of_fuel found k = out_of_fuel

  -- The matches so far, by short id, the last one in front
  unfoldable pub match_short_ids :
      (List ℕ → List ℕ) → List (List ℕ) → Bool → Mempool → Mempool → Result Mempool
  unfolding is_requested
  match_short_ids short_id shortids use_wtxid matches [] = ok matches
  match_short_ids short_id shortids use_wtxid matches ((id, tx) ∷ pool) = do
    matches' ← continue_without (if use_wtxid then witness_hash h tx else hash h tx) matches λ hash.
        let sid = short_id (reverse hash) in
        if is_requested shortids sid then (sid, tx) ∷ matches else matches
    match_short_ids short_id shortids use_wtxid matches' pool
