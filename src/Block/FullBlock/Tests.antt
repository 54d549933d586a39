-- ===== src/Block/FullBlock/Tests.antt =====
-- A block with one transaction of three outputs, one of them with data and two with one script.
use go_bitcoin.Base.{ℕ, false, List, [], ◌∷◌, ◌<◌, length, bytes_equal, ◌⊎◌, ◌↔◌, ◌≡◌, refl}
use go_bitcoin.Base.Membership.{Has}
use go_bitcoin.Transactions.TxOut.{TxOut, tx_out, raw_script_bytes, raw_or_serialized}
use go_bitcoin.Transactions.Transaction.{new_transaction}
use go_bitcoin.Block.Tests.{header_at}
use go_bitcoin.Block.FullBlock.{
  FullBlock, extract_basic_filter_items, non_empty, tx_items, output_items, add_script, unique,
  is_seen, sort_items, insert_item, less,
}
use go_bitcoin.Block.FullBlock.Sorting.{IsAscending}
use go_bitcoin.Block.FullBlock.Items.{IsPaying, output_scripts, extract_basic_filter_items_exact}

abbrev output : List ℕ → TxOut
output raw = tx_out 5000 [] raw

abbrev small_block : FullBlock
small_block = record {
  block_header = header_at 1500000000;
  txs =
      new_transaction 1 []
        (output (0x6a ∷ 1 ∷ []) ∷ output (0x51 ∷ 9 ∷ []) ∷ output (0x51 ∷ 9 ∷ []) ∷ []) 0 false
        false
      ∷ [];
}

abbrev spent : List (List ℕ)
spent = (0x76 ∷ []) ∷ [] ∷ (0x51 ∷ []) ∷ []

small_items :
    extract_basic_filter_items spent small_block ≡ (0x51 ∷ []) ∷ (0x51 ∷ 9 ∷ []) ∷ (0x76 ∷ []) ∷ []
unfolding extract_basic_filter_items non_empty tx_items output_items add_script unique is_seen
    sort_items insert_item less raw_script_bytes raw_or_serialized new_transaction bytes_equal
small_items = refl

extract_basic_filter_items_exact_example :
    IsAscending (extract_basic_filter_items spent small_block)
    × ((t : List ℕ)
        → Has t (extract_basic_filter_items spent small_block) ↔ (
            ((0 < length t) × Has t spent) ⊎ (IsPaying t × Has t (output_scripts small_block.txs))))
extract_basic_filter_items_exact_example = extract_basic_filter_items_exact spent small_block
