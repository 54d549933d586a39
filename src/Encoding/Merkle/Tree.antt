-- ===== src/Encoding/Merkle/Tree.antt =====
-- MerkleTree of internal/encoding/merkle.go: a tree with a cursor, and PopulateTree, which fills it from the flags
-- and hashes of a merkle block.
pub mod Rows
pub mod Walk
pub mod Populate
pub mod Sound
pub mod Places
pub mod Kept
pub mod Collision
pub mod Proof
pub mod Roots
pub mod Complete
use go_bitcoin.Base.{
  ℕ, zero, suc, ◌+◌, ◌-◌, ◌*◌, ◌/◌, ◌^◌, Bool, true, false, List, [], ◌∷◌, ltb, ◌==◌,
}
use go_bitcoin.Base.{
  if◌then◌else◌, length, Result, ok, err, panic, out_of_fuel, ◌>>=◌, invalid_input,
}
use go_bitcoin.Base.Slices.{read_index, write_index}
use go_bitcoin.Encoding.Hash.{Hashes}
use go_bitcoin.Encoding.Merkle.{merkle_parent, merkle_parent_level}

-- An empty list is a nil slice.
pub record MerkleTree : Type 0 where
  pub total : ℕ
  pub max_depth : ℕ
  pub nodes : List (List (List ℕ))
  pub current_depth : ℕ
  pub current_index : ℕ

-- math.Ceil(math.Log2(total)), which is exact on uint32 totals: the rounds until one is left.
unfoldable pub halvings : ℕ → ℕ → ℕ
halvings zero n = 0
halvings (suc fuel) n = let rest = halvings fuel ((n + 1) / 2) in if ltb 1 n then suc rest else 0

-- The logarithm of 0 is -Inf, whose conversion gives a negative length to make.
unfoldable pub tree_depth : ℕ → Result ℕ
unfolding halvings
tree_depth zero = panic
tree_depth (suc n) = ok (halvings (suc n) (suc n))

unfoldable pub nil_row : ℕ → List (List ℕ)
nil_row zero = []
nil_row (suc k) = [] ∷ nil_row k

-- math.Ceil(total / 2^k)
unfoldable pub num_items : ℕ → ℕ → ℕ
num_items total k = (total + (2 ^ k - 1)) / 2 ^ k

-- The rows from the one that is `k` above the leaves downwards
unfoldable pub nil_rows : ℕ → ℕ → List (List (List ℕ))
unfolding nil_row num_items
nil_rows total zero = nil_row (num_items total 0) ∷ []
nil_rows total (suc k) = nil_row (num_items total (suc k)) ∷ nil_rows total k

unfoldable pub new_empty_merkle_tree : ℕ → Result MerkleTree
unfolding tree_depth nil_rows
new_empty_merkle_tree total = do
  md ← tree_depth total
  ok (record {
    total = total;
    max_depth = md;
    nodes = nil_rows total md;
    current_depth = 0;
    current_index = 0;
  })

unfoldable pub up : MerkleTree → MerkleTree
up mt =
    if mt.current_depth == 0
    then mt
    else (record mt { current_depth = mt.current_depth - 1; current_index = mt.current_index / 2 })

unfoldable pub is_leaf : MerkleTree → Bool
is_leaf mt = mt.current_depth == mt.max_depth

unfoldable pub left : MerkleTree → MerkleTree
unfolding is_leaf
left mt =
    if is_leaf mt
    then mt
    else (record mt { current_depth = mt.current_depth + 1; current_index = mt.current_index * 2 })

unfoldable pub right_exists : MerkleTree → Result Bool
right_exists mt = do
  row ← read_index mt.nodes (mt.current_depth + 1)
  ok (ltb (mt.current_index * 2 + 1) (length row))

unfoldable pub right : MerkleTree → Result MerkleTree
unfolding is_leaf right_exists
right mt = if is_leaf mt then ok mt else (do
  exists ← right_exists mt
  ok (
      if exists
      then (record mt {
        current_depth = mt.current_depth + 1;
        current_index = mt.current_index * 2 + 1;
      })
      else mt))

unfoldable pub root : MerkleTree → Result (List ℕ)
root mt = do row ← read_index mt.nodes 0; read_index row 0

unfoldable pub set_current_node : List ℕ → MerkleTree → Result MerkleTree
set_current_node value mt = do
  row ← read_index mt.nodes mt.current_depth
  row' ← write_index row mt.current_index value
  nodes' ← write_index mt.nodes mt.current_depth row'
  ok (record mt { nodes = nodes' })

unfoldable pub get_current_node : MerkleTree → Result (List ℕ)
get_current_node mt = do row ← read_index mt.nodes mt.current_depth; read_index row mt.current_index

unfoldable pub get_left_node : MerkleTree → Result (List ℕ)
unfolding is_leaf
get_left_node mt = if is_leaf mt then ok [] else (do
  row ← read_index mt.nodes (mt.current_depth + 1)
  read_index row (mt.current_index * 2))

unfoldable pub get_right_node : MerkleTree → Result (List ℕ)
unfolding is_leaf right_exists
get_right_node mt = if is_leaf mt then ok [] else (do
  exists ← right_exists mt
  (if exists
      then (do
        row ← read_index mt.nodes (mt.current_depth + 1)
        read_index row (mt.current_index * 2 + 1))
      else ok []))

-- The tree, the flags and hashes that are left, and the hash of the node
abbrev pub Traversal : Type 0
Traversal = MerkleTree × List ℕ × List (List ℕ) × List ℕ

-- The next hash goes into the current node.
unfoldable pub use_hash : MerkleTree → List ℕ → List (List ℕ) → Result Traversal
unfolding set_current_node
use_hash mt flags [] = err invalid_input
use_hash mt flags (hash ∷ hashes) = do mt' ← set_current_node hash mt; ok (mt', flags, hashes, hash)

-- The right child, where there is one; else the left hash again
unfoldable pub go_right :
    (MerkleTree → List ℕ → List (List ℕ) → Result Traversal) → Traversal → Bool → Result Traversal
unfolding up right
go_right traverse (mt, flags, hashes, left_hash) true = do
  mt1 ← right mt
  (mt2, flags', hashes', right_hash) ← traverse mt1 flags hashes
  ok (up mt2, flags', hashes', right_hash)
go_right traverse (mt, flags, hashes, left_hash) false = ok (mt, flags, hashes, left_hash)

-- Hashes that are left are an error; flags that are left are not.
abbrev pub all_used : List (List ℕ) → MerkleTree → Result MerkleTree
all_used [] mt = ok mt
all_used (hash ∷ hashes) mt = err invalid_input

module _ (h : Hashes) where
  -- NewMerkleTree's loop from the leaves up: the rows below come behind.
  unfoldable pub full_rows :
      ℕ → List (List ℕ) → List (List (List ℕ)) → Result (List (List (List ℕ)))
  full_rows zero hashes below = ok (hashes ∷ below)
  full_rows (suc k) hashes below = do
    level ← merkle_parent_level h hashes
    full_rows k level (hashes ∷ below)

  unfoldable pub new_merkle_tree : List (List ℕ) → Result MerkleTree
  unfolding tree_depth full_rows
  new_merkle_tree hashes = do
    md ← tree_depth (length hashes)
    rows ← full_rows md hashes []
    ok (record {
      total = length hashes;
      max_depth = md;
      nodes = rows;
      current_depth = 0;
      current_index = 0;
    })

  -- The part for a flag that says to descend
  unfoldable pub descend :
      (MerkleTree → List ℕ → List (List ℕ) → Result Traversal)
      → MerkleTree
      → List ℕ
      → List (List ℕ)
      → Result Traversal
  unfolding left up go_right set_current_node
  descend traverse mt flags hashes = do
    (mt1, flags1, hashes1, left_hash) ← traverse (left mt) flags hashes
    exists ← right_exists (up mt1)
    (mt2, flags2, hashes2, right_hash) ←
        go_right traverse (up mt1, flags1, hashes1, left_hash) exists
    mt3 ← set_current_node (merkle_parent h left_hash right_hash) mt2
    ok (mt3, flags2, hashes2, merkle_parent h left_hash right_hash)

  -- The closure `traverse` of PopulateTree. Its two indexes are the flags and the hashes that are left.
  unfoldable pub traverse : ℕ → MerkleTree → List ℕ → List (List ℕ) → Result Traversal
  unfolding use_hash descend is_leaf
  traverse zero mt flags hashes = out_of_fuel
  traverse (suc fuel) mt [] hashes = err invalid_input
  traverse (suc fuel) mt (flag ∷ flags) hashes =
      if is_leaf mt
      then use_hash mt flags hashes
      else if flag == 0
      then use_hash mt flags hashes
      else descend (traverse fuel) mt flags hashes

  -- The cursor starts at the root, so one round for each row is enough.
  unfoldable pub populate_tree : List ℕ → List (List ℕ) → MerkleTree → Result MerkleTree
  unfolding traverse
  populate_tree flag_bits hashes mt = do
    (mt', flags, hashes', hash) ← traverse (suc mt.max_depth) mt flag_bits hashes
    all_used hashes' mt'
