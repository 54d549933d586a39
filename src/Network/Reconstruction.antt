-- ===== src/Network/Reconstruction.antt =====
-- ReconstructBlock of internal/network/compact.go: the transactions of a block from a compact block, the
-- mempool and the transactions that were asked for.
pub mod Filled
pub mod Complete
mod Tests
use go_bitcoin.Base.{ℕ, zero, suc, ◌+◌, Option, none, some, List, [], ◌∷◌, ◌++◌, ◌==◌, length}
use go_bitcoin.Base.{Result, ok, err, panic, out_of_fuel, ◌>>=◌}
use go_bitcoin.Base.Bytes.{copy_into}
use go_bitcoin.Encoding.Hash.{Hashes}
use go_bitcoin.Block.Header.{Block}
use go_bitcoin.Transactions.Transaction.{Transaction, hash}
use go_bitcoin.Network.Mempool.{
  Mempool, get, calc_short_id_keys, calculate_short_id, match_short_ids,
}

pub record PrefilledTransaction : Type 0 where
  pub index : ℕ
  pub tx : Transaction

pub record CompactBlockMessage : Type 0 where
  pub header : Block
  pub nonce : ℕ
  pub short_ids : List (List ℕ)
  pub prefilled_txns : List PrefilledTransaction

-- A nil pointer to a transaction is none.
abbrev pub Slots : Type 0
Slots = List (Option Transaction)

unfoldable pub no_slots : ℕ → Slots
no_slots zero = []
no_slots (suc n) = none ∷ no_slots n

-- `txns[i] = tx`; an index out of range panics.
unfoldable pub set_slot : ℕ → Transaction → Slots → Result Slots
set_slot i tx [] = panic
set_slot zero tx (s ∷ slots) = ok (some tx ∷ slots)
set_slot (suc i) tx (s ∷ slots) = do slots' ← set_slot i tx slots; ok (s ∷ slots')

unfoldable pub place_prefilled : List PrefilledTransaction → Slots → Result Slots
unfolding set_slot
place_prefilled [] slots = ok slots
place_prefilled (pf ∷ pfs) slots = do
  slots' ← set_slot pf.index pf.tx slots
  place_prefilled pfs slots'

-- The index of a slot without a match is missing.
abbrev pub missing_at : ℕ → Option Transaction → List ℕ
missing_at i none = i ∷ []
missing_at i (some tx) = []

-- The loop over the slots from `i` on, with the short ids that are left: the slots filled from the matches, and
-- the indexes that are missing
unfoldable pub fill_matches : Mempool → ℕ → Slots → List (List ℕ) → Result (Slots × List ℕ)
fill_matches matches i [] sids = ok ([], [])
fill_matches matches i (some tx ∷ slots) sids = do
  (filled, missing) ← fill_matches matches (suc i) slots sids
  ok (some tx ∷ filled, missing)
fill_matches matches i (none ∷ slots) [] = panic
fill_matches matches i (none ∷ slots) (sid ∷ sids) = do
  (filled, missing) ← fill_matches matches (suc i) slots sids
  ok (get sid matches ∷ filled, missing_at i (get sid matches) ++ missing)

-- The missing slots are filled in their order, as far as there are transactions for them.
unfoldable pub fill_missing : List ℕ → List Transaction → Slots → Result (Slots × List ℕ)
fill_missing missing [] slots = ok (slots, missing)
fill_missing [] (tx ∷ txs) slots = ok (slots, [])
fill_missing (i ∷ missing) (tx ∷ txs) slots = do
  slots' ← set_slot i tx slots
  fill_missing missing txs slots'

-- The transactions and what is missing of them, before the block is made
unfoldable pub fill_block :
    Mempool → CompactBlockMessage → List Transaction → Result (Slots × List ℕ)
unfolding place_prefilled fill_matches fill_missing no_slots
fill_block matches msg missing_txns = do
  placed ←
      place_prefilled msg.prefilled_txns
        (no_slots (length msg.short_ids + length msg.prefilled_txns))
  (filled, missing) ← fill_matches matches 0 placed msg.short_ids
  fill_missing missing missing_txns filled

module _ (h : Hashes) where
  -- The error of Hash is dropped, with a hash of zeros.
  abbrev hash_or_zeros : Result (List ℕ) → Result (List ℕ)
  hash_or_zeros (ok bs) = ok bs
  hash_or_zeros (err e) = ok (copy_into 32 [])
  hash_or_zeros panic = panic
  hash_or_zeros out_of_fuel = out_of_fuel

  unfoldable pub tx_hashes : Slots → Result (List (List ℕ))
  tx_hashes [] = ok []
  tx_hashes (none ∷ slots) = do hashes ← tx_hashes slots; ok (copy_into 32 [] ∷ hashes)
  tx_hashes (some tx ∷ slots) = do
    bs ← hash_or_zeros (hash h tx)
    hashes ← tx_hashes slots
    ok (bs ∷ hashes)

  -- Version 2 of the protocol takes the ids of the transactions with their witnesses. The header of the
  -- message is changed in place and returned.
  unfoldable pub reconstruct_block :
      (ℕ → ℕ → List ℕ → ℕ)
      → CompactBlockMessage
      → Mempool
      → List Transaction
      → ℕ
      → Result (Block × List ℕ)
  unfolding fill_block tx_hashes
  reconstruct_block sip_hash msg pool missing_txns version = do
    let (k0, k1) = calc_short_id_keys h msg.header msg.nonce
    matches ←
        match_short_ids h (λ txid. calculate_short_id sip_hash txid k0 k1) msg.short_ids
          (version == 2) [] pool
    (filled, missing) ← fill_block matches msg missing_txns
    hashes ← tx_hashes filled
    ok (record msg.header { tx_hashes = hashes }, missing)
