-- ===== src/Block/FullBlock.antt =====
-- FullBlock of internal/block/block.go: a block with its transactions, and the items of its BIP158 filter.
pub mod Sorting
pub mod Items
mod Tests
use go_bitcoin.Base.{
  ℕ, Bool, true, false, ◌||◌, ◌&&◌, ltb, ◌==◌, if◌then◌else◌, List, [], ◌∷◌, ◌++◌, bytes_equal,
}
use go_bitcoin.Base.{Result, ok, ◌>>=◌}
use go_bitcoin.Base.Bytes.{Reader}
use go_bitcoin.Base.Codes.{make, ◌>>◌, parse_many}
use go_bitcoin.Encoding.VarInt.{read_var_int}
use go_bitcoin.Transactions.TxOut.{TxOut, raw_script_bytes}
use go_bitcoin.Transactions.Transaction.{Transaction, parse_transaction}
use go_bitcoin.Block.Header.{Block, parse_block}

abbrev pub op_return : ℕ
op_return = 0x6a

pub record FullBlock : Type 0 where
  pub block_header : Block
  pub txs : List Transaction

-- A pointer is eight bytes.
unfoldable pub parse_full_block : Reader → List ℕ → Result (FullBlock × List ℕ)
parse_full_block r bs = do
  (header, bs1) ← parse_block bs
  (tx_count, bs2) ← read_var_int bs1
  make 8 tx_count
  (txs, rest) ← parse_many (parse_transaction r) tx_count bs2
  ok (record { block_header = header; txs = txs }, rest)

-- Items without the empty ones
unfoldable pub non_empty : List (List ℕ) → List (List ℕ)
non_empty [] = []
non_empty ([] ∷ items) = non_empty items
non_empty ((b ∷ bs) ∷ items) = (b ∷ bs) ∷ non_empty items

-- `if scriptBytes[0] == OP_RETURN { continue }`, and the same for an empty script
unfoldable pub add_script : List ℕ → List (List ℕ) → List (List ℕ)
add_script [] items = items
add_script (b ∷ bs) items = if b == op_return then items else (b ∷ bs) ∷ items

unfoldable pub output_items : List TxOut → List (List ℕ)
unfolding add_script
output_items [] = []
output_items (output ∷ outputs) = add_script (raw_script_bytes output) (output_items outputs)

unfoldable pub tx_items : List Transaction → List (List ℕ)
unfolding output_items
tx_items [] = []
tx_items (tx ∷ txs) = output_items tx.outputs ++ tx_items txs

unfoldable pub is_seen : List ℕ → List (List ℕ) → Bool
is_seen item [] = false
is_seen item (x ∷ seen) = bytes_equal item x || is_seen item seen

-- The first one of equal items stays.
unfoldable pub unique : List (List ℕ) → List (List ℕ) → List (List ℕ)
unfolding is_seen
unique seen [] = []
unique seen (item ∷ items) =
    if is_seen item seen then unique seen items else item ∷ unique (item ∷ seen) items

-- bytes.Compare(a, b) < 0
unfoldable pub less : List ℕ → List ℕ → Bool
less bs [] = false
less [] (c ∷ cs) = true
less (b ∷ bs) (c ∷ cs) = ltb b c || (b == c && less bs cs)

unfoldable pub insert_item : List ℕ → List (List ℕ) → List (List ℕ)
unfolding less
insert_item x [] = x ∷ []
insert_item x (y ∷ ys) = if less y x then y ∷ insert_item x ys else x ∷ y ∷ ys

unfoldable pub sort_items : List (List ℕ) → List (List ℕ)
unfolding insert_item
sort_items [] = []
sort_items (x ∷ xs) = insert_item x (sort_items xs)

-- `append(items, script)` for the scripts, then for the outputs
unfoldable pub extract_basic_filter_items : List (List ℕ) → FullBlock → List (List ℕ)
unfolding non_empty tx_items unique sort_items
extract_basic_filter_items prev_output_scripts fb =
    sort_items (unique [] (non_empty (non_empty prev_output_scripts ++ tx_items fb.txs)))
