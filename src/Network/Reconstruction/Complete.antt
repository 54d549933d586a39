-- ===== src/Network/Reconstruction/Complete.antt =====
-- ReconstructBlock of internal/network/compact.go on the compact block of a block.
use go_bitcoin.Base.{ℕ, List, [], ◌∷◌, ◌==◌, some, ◌≡◌, refl, All, map, ok}
use go_bitcoin.Encoding.Hash.{Hashes}
use go_bitcoin.Transactions.Transaction.{Transaction, hash}
use go_bitcoin.Network.Mempool.{Mempool, calc_short_id_keys, calculate_short_id, match_short_ids}
use go_bitcoin.Network.Reconstruction.{CompactBlockMessage, tx_hashes, reconstruct_block}
use go_bitcoin.Network.Reconstruction.Filled.{
  Sent, sent_tx, prefilled_from, short_ids_of, requested, IsMatched,
}
use go_bitcoin.Network.Reconstruction.Filled.{fill_block_complete}

module _ (h : Hashes) (sip_hash : ℕ → ℕ → List ℕ → ℕ) where
  -- The short id of a hash under the keys of the message
  abbrev pub message_short_id : CompactBlockMessage → List ℕ → List ℕ
  message_short_id msg txid =
      let keys = calc_short_id_keys h msg.header msg.nonce in
      calculate_short_id sip_hash txid keys.0 keys.1

  tx_hashes_eq :
      (ids : Transaction → List ℕ) (sents : List Sent)
      → All (λ sent. hash h (sent_tx sent) ≡ ok (ids (sent_tx sent))) sents
      → tx_hashes h (map (λ sent. some (sent_tx sent)) sents)
        ≡ ok (map (λ sent. ids (sent_tx sent)) sents)
  unfolding tx_hashes
  tx_hashes_eq ids [] hashed = refl
  tx_hashes_eq ids (sent ∷ sents) (e, hashed) = rw (e, tx_hashes_eq ids sents hashed) refl

  -- A compact block that sends some transactions of a block by index and the others by short id, where the search of
  -- the mempool holds, under the short id of each of the others, that transaction or nothing, and where every
  -- transaction has its hash: given the transactions that were not found, in their order, ReconstructBlock returns
  -- the header with the hashes of the block's transactions in their order, and nothing is missing.
  pub reconstruct_block_complete :
      (short ids : Transaction → List ℕ) (msg : CompactBlockMessage) (pool matches : Mempool)
      (version : ℕ) (sents : List Sent)
      → msg.short_ids ≡ short_ids_of short sents
      → msg.prefilled_txns ≡ prefilled_from 0 sents
      → match_short_ids h (message_short_id msg) msg.short_ids (version == 2) [] pool ≡ ok matches
      → All (IsMatched short matches) sents
      → All (λ sent. hash h (sent_tx sent) ≡ ok (ids (sent_tx sent))) sents
      → reconstruct_block h sip_hash msg pool (requested sents) version
        ≡ ok (record msg.header { tx_hashes = map (λ sent. ids (sent_tx sent)) sents }, [])
  unfolding reconstruct_block
  reconstruct_block_complete short ids msg pool matches version sents sids prefilled found all
        hashed =
      rw
        (
          found,
          fill_block_complete short matches msg sents sids prefilled all,
          tx_hashes_eq ids sents hashed,
        )
        refl
