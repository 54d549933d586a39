-- ===== src/Encoding/Merkle/Tree/Populate.antt =====
-- PopulateTree on a tree of NewEmptyMerkleTree.
use go_bitcoin.Base.{
  ℕ, zero, suc, ◌+◌, ◌*◌, ◌<◌, Bool, true, false, List, [], ◌∷◌, ltb, ◌==◌, Bool-cases,
}
use go_bitcoin.Base.{
  inl, inr, Result, ok, err, panic, out_of_fuel, ◌>>=◌, Returns, Returns-bind, ◌≡◌, refl, arith,
}
use go_bitcoin.Encoding.Hash.{Hashes}
use go_bitcoin.Encoding.Merkle.Tree.{
  MerkleTree, halvings, tree_depth, nil_rows, new_empty_merkle_tree,
}
use go_bitcoin.Encoding.Merkle.Tree.{all_used, populate_tree}
use go_bitcoin.Encoding.Merkle.Tree.Rows.{width, width-halvings, at, nil_rows-IsShaped}
use go_bitcoin.Encoding.Merkle.Tree.Walk.{
  Walk, Walked, walk, walk_hash, walk_right, write_all, filled,
}
use go_bitcoin.Encoding.Merkle.Tree.Walk.{traverse_eq}

-- The depth of the tree of `n` leaves
abbrev pub depth_of : ℕ → ℕ
depth_of n = halvings n n

pub new_empty_merkle_tree_eq :
    (n : ℕ) → 0 < n → new_empty_merkle_tree n ≡ ok (at n (depth_of n) (nil_rows n (depth_of n)) 0 0)
unfolding new_empty_merkle_tree tree_depth
new_empty_merkle_tree_eq zero p = absurd (omega arith)
new_empty_merkle_tree_eq (suc n) p = refl

abbrev pub finished : ℕ → Walked → Result MerkleTree
finished n w =
    all_used w.hashes_left
      (at n (depth_of n) (write_all (depth_of n) w.writes (nil_rows n (depth_of n))) 0 0)

pub populate_tree_eq :
    (h : Hashes) (n : ℕ) (flags : List ℕ) (hashes : List (List ℕ))
    → 0 < n
    → populate_tree h flags hashes (at n (depth_of n) (nil_rows n (depth_of n)) 0 0)
      ≡ (do w ← walk h n (depth_of n) 0 flags hashes; finished n w)
unfolding populate_tree
populate_tree_eq h n flags hashes p =
    let one : width n (depth_of n) ≡ 1 = width-halvings n n p (omega arith) in
    let top = depth_of n in
    rw
      (traverse_eq h n top top 0 0 (nil_rows n top) flags hashes (nil_rows-IsShaped n top)
        (omega arith) (omega arith))
      (bind_filled (walk h n top 0 flags hashes))
  where
    bind_filled :
        (m : Result Walked)
        → (do
          (mt, flags', hashes', hash) ← (do
            w ← m
            filled n (halvings n n) (nil_rows n (halvings n n)) 0 0 w)
          all_used hashes' mt)
          ≡ (do w ← m; finished n w)
    bind_filled (ok w) = refl
    bind_filled (err e) = refl
    bind_filled panic = refl
    bind_filled out_of_fuel = refl

walk_hash-Returns :
    (k i : ℕ) (flags : List ℕ) (hashes : List (List ℕ)) → Returns (walk_hash k i flags hashes)
walk_hash-Returns k i flags [] = tt
walk_hash-Returns k i flags (x ∷ hashes) = tt

all_used-Returns : (hashes : List (List ℕ)) (mt : MerkleTree) → Returns (all_used hashes mt)
all_used-Returns [] mt = tt
all_used-Returns (x ∷ hashes) mt = tt

walk_right-Returns :
    (go : Walk) (i : ℕ) (l : Walked) (exists : Bool)
    → ((j : ℕ) (flags : List ℕ) (hashes : List (List ℕ)) → Returns (go j flags hashes))
    → Returns (walk_right go i l exists)
walk_right-Returns go i l true h = h (i * 2 + 1) l.flags_left l.hashes_left
walk_right-Returns go i l false h = tt

walk-Returns :
    (h : Hashes) (n k i : ℕ) (flags : List ℕ) (hashes : List (List ℕ))
    → Returns (walk h n k i flags hashes)
unfolding walk
walk-Returns h n zero i [] hashes = tt
walk-Returns h n zero i (flag ∷ flags) hashes = walk_hash-Returns 0 i flags hashes
walk-Returns h n (suc k) i [] hashes = tt
walk-Returns h n (suc k) i (flag ∷ flags) hashes = elim (Bool-cases (flag == 0)) [
  | inl stop ↦ rw stop (walk_hash-Returns (suc k) i flags hashes)
  | inr more ↦ rw more (
      Returns-bind (walk h n k (i * 2) flags hashes) _ (walk-Returns h n k (i * 2) flags hashes)
        (λ l e.
          Returns-bind (walk_right (walk h n k) i l (ltb (i * 2 + 1) (width n k))) _
            (walk_right-Returns (walk h n k) i l (ltb (i * 2 + 1) (width n k)) (walk-Returns h n k))
            (λ r e'. tt)))
]

-- For one transaction at least, whatever the flags and hashes are, NewEmptyMerkleTree makes a tree and PopulateTree on
-- it ends with a tree or an error: it does not panic and its recursion ends.
pub populate_tree-Returns :
    (h : Hashes) (n : ℕ) (flags : List ℕ) (hashes : List (List ℕ))
    → 0 < n
    → Returns (do mt ← new_empty_merkle_tree n; populate_tree h flags hashes mt)
populate_tree-Returns h n flags hashes p =
    rw (new_empty_merkle_tree_eq n p, populate_tree_eq h n flags hashes p)
      (Returns-bind (walk h n (depth_of n) 0 flags hashes) _
        (walk-Returns h n (depth_of n) 0 flags hashes) (λ w e. all_used-Returns w.hashes_left _))
