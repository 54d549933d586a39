-- ===== src/Network/MerkleBlock/Valid.antt =====
-- IsValid of a merkle block: it takes the proofs of full nodes, and panics on a block without transactions.
use go_bitcoin.Base.{ℕ, ◌<◌, Bool, true, List, ◌++◌, bytes_equal_self, ok, panic, ◌≡◌, refl}
use go_bitcoin.Encoding.Hash.{Hashes}
use go_bitcoin.Encoding.Merkle
use go_bitcoin.Encoding.Merkle.Tree.{new_empty_merkle_tree, populate_tree, tree_depth, nil_rows}
use go_bitcoin.Encoding.Merkle.Tree.Rows.{at}
use go_bitcoin.Encoding.Merkle.Tree.Populate.{depth_of, new_empty_merkle_tree_eq}
use go_bitcoin.Encoding.Merkle.Tree.Complete.{proof_flags, proof_hashes, populate_tree_complete}
use go_bitcoin.Encoding.Merkle.Tree.Roots.{values_from}
use go_bitcoin.Network.MerkleBlock.{MerkleBlock, is_valid}

-- A merkle block with the root of its block, and with the flags and hashes that prove any choice of its nodes, with
-- padding behind the flags, is valid.
pub is_valid-proof :
    (h : Hashes) (leaf : ℕ → List ℕ) (opened : ℕ → ℕ → Bool) (padding : List ℕ) (mb : MerkleBlock)
    → 0 < mb.num_transactions
    → Merkle.merkle_root h (values_from leaf 0 mb.num_transactions) ≡ ok mb.merkle_root
    → mb.flag_bits
      ≡ proof_flags h mb.num_transactions leaf opened (depth_of mb.num_transactions) 0 ++ padding
    → mb.tx_hashes ≡ proof_hashes h mb.num_transactions leaf opened (depth_of mb.num_transactions) 0
    → is_valid h mb ≡ ok true
unfolding is_valid
is_valid-proof h leaf opened padding mb p root_eq flags_eq hashes_eq =
    let n = mb.num_transactions in
    let (mt, filled, rooted) = populate_tree_complete h n leaf opened padding p in
    let made = new_empty_merkle_tree_eq n p in
    let filled' : populate_tree h mb.flag_bits mb.tx_hashes
          (at n (depth_of n) (nil_rows n (depth_of n)) 0 0)
        ≡ ok mt =
      rw (flags_eq, hashes_eq) (rw made at filled) in
    rw (made, filled', rooted, root_eq, bytes_equal_self mb.merkle_root) refl

-- Of a merkle block that announces no transactions IsValid panics.
is_valid-no_transactions :
    (h : Hashes) (mb : MerkleBlock) → mb.num_transactions ≡ 0 → is_valid h mb ≡ panic
unfolding is_valid new_empty_merkle_tree tree_depth
is_valid-no_transactions h mb none_there = rw none_there refl
