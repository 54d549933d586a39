-- ===== src/Network/Reconstruction/Tests.antt =====
-- A run of the reconstruction on a compact block of three transactions, one of each way.
use go_bitcoin.Base.{
  ℕ, zero, suc, length, ap, List, [], ◌∷◌, reverse, take, false, ◌≡◌, refl, All, bytes_equal, map,
  ok,
}
use go_bitcoin.Base.Bytes.{copy_into, le_encode, le_decode}
use go_bitcoin.Encoding.Hash.{Hashes, hash256}
use go_bitcoin.Block.Header.{Block, new_block}
use go_bitcoin.Transactions.Transaction.{
  Transaction, new_transaction, hash, serialize_legacy, put_inputs_outputs,
}
use go_bitcoin.Base.Codes.{write_many}
use go_bitcoin.Encoding.VarInt.{encode_var_int}
use go_bitcoin.Network.Mempool.{
  Mempool, match_short_ids, calc_short_id_keys, calculate_short_id, is_requested, get,
}
use go_bitcoin.Network.Reconstruction.{CompactBlockMessage, reconstruct_block}
use go_bitcoin.Network.Reconstruction.Filled.{
  Sent, in_message, in_pool, on_request, sent_tx, requested, IsMatched,
}
use go_bitcoin.Network.Reconstruction.Filled.{prefilled_from, short_ids_of}
use go_bitcoin.Network.Reconstruction.Complete.{message_short_id, reconstruct_block_complete}

length-copy_into : (k : ℕ) (xs : List ℕ) → length (copy_into k xs) ≡ k
unfolding copy_into
length-copy_into zero xs = refl
length-copy_into (suc k) [] = ap suc (length-copy_into k [])
length-copy_into (suc k) (x ∷ xs) = ap suc (length-copy_into k xs)

-- Hash functions that keep the front of their input
abbrev front_hashes : Hashes
front_hashes = record {
  sha256 = λ bs. copy_into 32 bs;
  sha1 = λ bs. copy_into 20 bs;
  ripemd160 = λ bs. copy_into 20 bs;
  length-sha256 = λ bs. length-copy_into 32 bs;
  length-ripemd160 = λ bs. length-copy_into 20 bs;
}

abbrev front_sip_hash : ℕ → ℕ → List ℕ → ℕ
front_sip_hash k0 k1 bs = le_decode (take 4 bs)

abbrev numbered : ℕ → Transaction
numbered n = new_transaction n [] [] 0 false false

abbrev short_of : Transaction → List ℕ
short_of tx = le_encode 6 tx.version

abbrev id_of : Transaction → List ℕ
id_of tx = reverse (copy_into 32 (le_encode 4 tx.version))

abbrev three_sents : List Sent
three_sents = in_message (numbered 1) ∷ in_pool (numbered 2) ∷ on_request (numbered 3) ∷ []

abbrev test_header : Block
test_header = new_block 2 (copy_into 32 []) (copy_into 32 []) 1500000000 0x1b0404cb 42 []

abbrev test_message : CompactBlockMessage
test_message = record {
  header = test_header;
  nonce = 5;
  short_ids = short_ids_of short_of three_sents;
  prefilled_txns = prefilled_from 0 three_sents;
}

abbrev test_pool : Mempool
test_pool = (id_of (numbered 2), numbered 2) ∷ (id_of (numbered 9), numbered 9) ∷ []

hashed_three :
    All (λ sent. hash front_hashes (sent_tx sent) ≡ ok (id_of (sent_tx sent))) three_sents
unfolding hash serialize_legacy put_inputs_outputs write_many encode_var_int le_encode hash256
    copy_into new_transaction sent_tx
hashed_three = (refl, (refl, (refl, tt)))

found_second :
    match_short_ids front_hashes
      (message_short_id front_hashes front_sip_hash test_message)
      test_message.short_ids
      false
      []
      test_pool
    ≡ ok ((short_of (numbered 2), numbered 2) ∷ [])
unfolding match_short_ids calculate_short_id calc_short_id_keys short_ids_of is_requested
    bytes_equal le_decode hash serialize_legacy put_inputs_outputs write_many encode_var_int
    le_encode hash256 copy_into new_transaction
found_second = refl

three_sents-IsMatched :
    All (IsMatched short_of ((short_of (numbered 2), numbered 2) ∷ [])) three_sents
unfolding IsMatched get bytes_equal le_encode new_transaction
three_sents-IsMatched = (tt, (refl, (refl, tt)))

reconstruct_block_complete_example :
    reconstruct_block front_hashes front_sip_hash test_message test_pool (numbered 3 ∷ []) 1
    ≡ ok (record test_header { tx_hashes = map (λ sent. id_of (sent_tx sent)) three_sents }, [])
unfolding requested
reconstruct_block_complete_example =
    reconstruct_block_complete front_hashes front_sip_hash short_of id_of test_message test_pool
      ((short_of (numbered 2), numbered 2) ∷ []) 1 three_sents refl refl found_second
      three_sents-IsMatched hashed_three
