-- ===== src/Network/MerkleBlock/Tests.antt =====
-- A block of three transactions, with a proof of the last one, under a hash function that keeps the front of its input.
use go_bitcoin.Base.{ℕ, zero, suc, Bool, true, ◌+◌, ◌==◌, List, [], ◌∷◌, ◌++◌, length, Returns}
use go_bitcoin.Base.{ok, ◌>>=◌, ◌≡◌, refl, sym, ap, arith, ◌⊎◌}
use go_bitcoin.Base.Bytes.{copy_into}
use go_bitcoin.Base.Slices.{read_index, write_index}
use go_bitcoin.Encoding.Hash.{Hashes, hash256}
use go_bitcoin.Encoding.Merkle
use go_bitcoin.Encoding.Merkle.{merkle_loop, pair_up, last_hash, first_hash}
use go_bitcoin.Encoding.Merkle.Tree.{MerkleTree, new_empty_merkle_tree, populate_tree, root}
use go_bitcoin.Encoding.Merkle.Tree.{halvings}
use go_bitcoin.Encoding.Merkle.Tree.Populate.{depth_of, populate_tree-Returns}
use go_bitcoin.Encoding.Merkle.Tree.Collision.{Is32, node_hash}
use go_bitcoin.Encoding.Merkle.Tree.Proof.{HoldsCollision, populate_tree_sound}
use go_bitcoin.Encoding.Merkle.Tree.Roots.{values_from, merkle_root-node_hash}
use go_bitcoin.Encoding.Merkle.Tree.Complete.{proof_flags, proof_hashes}
use go_bitcoin.Network.MerkleBlock.{MerkleBlock, is_valid}
use go_bitcoin.Network.MerkleBlock.Valid.{is_valid-proof}

length-copy_into : (k : ℕ) (xs : List ℕ) → length (copy_into k xs) ≡ k
unfolding copy_into
length-copy_into zero xs = refl
length-copy_into (suc k) [] = ap suc (length-copy_into k [])
length-copy_into (suc k) (x ∷ xs) = ap suc (length-copy_into k xs)

abbrev front_hashes : Hashes
front_hashes = record {
  sha256 = λ bs. copy_into 32 bs;
  sha1 = λ bs. copy_into 20 bs;
  ripemd160 = λ bs. copy_into 20 bs;
  length-sha256 = λ bs. length-copy_into 32 bs;
  length-ripemd160 = λ bs. length-copy_into 20 bs;
}

abbrev test_leaf : ℕ → List ℕ
test_leaf i = copy_into 32 ((i + 7) ∷ [])

test_leaf-Is32 : (i : ℕ) → Is32 (test_leaf i)
test_leaf-Is32 i = length-copy_into 32 ((i + 7) ∷ [])

-- The root, the node over the last transaction and that transaction are opened.
abbrev test_opened : ℕ → ℕ → Bool
test_opened zero i = i == 2
test_opened (suc zero) i = i == 1
test_opened (suc (suc k)) i = true

abbrev test_block : MerkleBlock
test_block = record {
  version = 1;
  prev_block = copy_into 32 [];
  merkle_root = node_hash front_hashes 3 test_leaf 2 0;
  time_stamp = 1500000000;
  bits = 0x1b0404cb;
  nonce = 42;
  num_transactions = 3;
  num_hashes = 2;
  tx_hashes = proof_hashes front_hashes 3 test_leaf test_opened 2 0;
  num_flags = 1;
  flag_bits = proof_flags front_hashes 3 test_leaf test_opened 2 0 ++ (0 ∷ 0 ∷ 0 ∷ 0 ∷ []);
}

test_flags : test_block.flag_bits ≡ 1 ∷ 0 ∷ 1 ∷ 1 ∷ 0 ∷ 0 ∷ 0 ∷ 0 ∷ []
unfolding proof_flags
test_flags = refl

test_root :
    Merkle.merkle_root front_hashes (values_from test_leaf 0 3)
    ≡ ok (node_hash front_hashes 3 test_leaf 2 0)
unfolding halvings
test_root = merkle_root-node_hash front_hashes 3 test_leaf (omega arith)

merkle_root-node_hash_example :
    Merkle.merkle_root front_hashes (values_from test_leaf 0 3)
    ≡ ok (node_hash front_hashes 3 test_leaf (depth_of 3) 0)
merkle_root-node_hash_example = merkle_root-node_hash front_hashes 3 test_leaf (omega arith)

is_valid-proof_example : is_valid front_hashes test_block ≡ ok true
unfolding halvings
is_valid-proof_example =
    is_valid-proof front_hashes test_leaf test_opened (0 ∷ 0 ∷ 0 ∷ 0 ∷ []) test_block (omega arith)
      test_root refl refl

populate_tree-Returns_example :
    Returns (do mt ← new_empty_merkle_tree 3; populate_tree front_hashes (1 ∷ 0 ∷ []) [] mt)
populate_tree-Returns_example = populate_tree-Returns front_hashes 3 (1 ∷ 0 ∷ []) [] (omega arith)

-- The tree of the three transactions, with the last one and the nodes over it filled
abbrev three_empty : MerkleTree
three_empty = record {
  total = 3;
  max_depth = 2;
  nodes = ([] ∷ []) ∷ ([] ∷ [] ∷ []) ∷ ([] ∷ [] ∷ [] ∷ []) ∷ [];
  current_depth = 0;
  current_index = 0;
}

abbrev test_node : ℕ → ℕ → List ℕ
test_node k i = node_hash front_hashes 3 test_leaf k i

abbrev three_filled : MerkleTree
three_filled = record three_empty {
  nodes =
      (test_node 2 0 ∷ [])
      ∷ (test_node 1 0 ∷ test_node 1 1 ∷ [])
      ∷ ([] ∷ [] ∷ test_leaf 2 ∷ [])
      ∷ [];
}

three_node_32 : Is32 (test_node 1 0)
unfolding node_hash Merkle.merkle_parent copy_into hash256
three_node_32 = refl

three_made : new_empty_merkle_tree 3 ≡ ok three_empty
unfolding new_empty_merkle_tree
three_made = refl

three_taken :
    populate_tree front_hashes (1 ∷ 0 ∷ 1 ∷ 1 ∷ []) (test_node 1 0 ∷ test_leaf 2 ∷ []) three_empty
    ≡ ok three_filled
unfolding populate_tree read_index write_index node_hash Merkle.merkle_parent
three_taken = refl

three_rooted : root three_filled ≡ Merkle.merkle_root front_hashes (values_from test_leaf 0 3)
unfolding root read_index halvings
three_rooted = sym (merkle_root-node_hash front_hashes 3 test_leaf (omega arith))

populate_tree_sound_example :
    (test_leaf 2 ≡ [])
    ⊎ (test_leaf 2 ≡ test_leaf 2)
    ⊎ HoldsCollision front_hashes 3 test_leaf three_filled
populate_tree_sound_example =
    populate_tree_sound front_hashes 3 test_leaf (1 ∷ 0 ∷ 1 ∷ 1 ∷ [])
      (test_node 1 0 ∷ test_leaf 2 ∷ []) three_empty three_filled 2 (test_leaf 2) (omega arith)
      test_leaf-Is32 (three_node_32, (test_leaf-Is32 2, tt)) three_made three_taken three_rooted
      refl
