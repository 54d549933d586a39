-- ===== src/Encoding/Merkle/Tree/Proof.antt =====
-- A merkle block's proof: what a populated tree with the block's root says of the block.
use go_bitcoin.Base.{
  ℕ, suc, ◌+◌, ◌-◌, ◌*◌, ◌<◌, true, false, ltb, List, [], ◌∷◌, ◌++◌, All, ◌⊎◌, inl, inr,
}
use go_bitcoin.Base.{
  some, Result, ok, err, panic, out_of_fuel, ◌>>=◌, Ensures, ◌≡◌, sym, ap, subst, ◌∙◌, arith,
}
use go_bitcoin.Encoding.Hash.{Hashes, hash256}
use go_bitcoin.Encoding.Merkle.Tree.{
  MerkleTree, nil_rows, new_empty_merkle_tree, populate_tree, all_used, root,
}
use go_bitcoin.Encoding.Merkle.Tree.Rows.{width, width-halvings, at, nil_rows-IsShaped}
use go_bitcoin.Encoding.Merkle.Tree.Walk.{Write, Walked, walk, write_all}
use go_bitcoin.Encoding.Merkle.Tree.Populate.{
  depth_of, finished, new_empty_merkle_tree_eq, populate_tree_eq,
}
use go_bitcoin.Encoding.Merkle.Tree.Collision.{Is32, node_hash, right_hash, AreRight, Collided}
use go_bitcoin.Encoding.Merkle.Tree.Sound.{Sound, walk-Sound}
use go_bitcoin.Encoding.Merkle.Tree.Kept.{ArePlaces, Holds, node_at-Holds}
use go_bitcoin.Encoding.Merkle.Tree.Places.{
  node_at, node_at-write_all, nil_rows-nil, EndsAt, walk-EndsAt,
}
use go_bitcoin.Encoding.Merkle.Tree.Places.{root-write_all}
use go_bitcoin.Encoding.Merkle.{merkle_root}
use go_bitcoin.Encoding.Merkle.Tree.Roots.{values_from, merkle_root-node_hash}

module _ (h : Hashes) (n : ℕ) (leaf : ℕ → List ℕ) where
  -- Each place of the row of the leaves is empty or holds the hash of the transaction at its index.
  abbrev HoldsLeaves : MerkleTree → Type 0
  HoldsLeaves mt =
      (i : ℕ) (x : List ℕ) → node_at mt.nodes mt.max_depth i ≡ some x → (x ≡ []) ⊎ (x ≡ leaf i)

  abbrev IsEmptyOrRight : ℕ → ℕ → List ℕ → Type 0
  IsEmptyOrRight depth i x = (x ≡ []) ⊎ (x ≡ node_hash h n leaf (depth_of n - depth) i)

  placed :
      (ws : List Write)
      → AreRight h n leaf (depth_of n) ws
      → All (λ (w : Write). IsEmptyOrRight (depth_of n - w.height) w.index w.value) ws
  placed [] right = tt
  placed (w ∷ ws) ((low, e), right) =
      let same : depth_of n - (depth_of n - w.height) ≡ w.height = omega arith in
      (inr (e ∙ ap (λ k. node_hash h n leaf k w.index) (sym same)), placed ws right)

  written-HoldsLeaves :
      (ws : List Write)
      → AreRight h n leaf (depth_of n) ws
      → HoldsLeaves (at n (depth_of n) (write_all (depth_of n) ws (nil_rows n (depth_of n))) 0 0)
  unfolding node_hash
  written-HoldsLeaves ws right i x e =
      let bottom : depth_of n - depth_of n ≡ 0 = omega arith in
      elim (node_at-write_all IsEmptyOrRight (depth_of n) ws (nil_rows n (depth_of n))
        (placed ws right) (λ depth j y e'. inl (nil_rows-nil n (depth_of n) depth j y e'))
        (depth_of n) i x e) [
          | inl nil ↦ inl nil
          | inr right_hash ↦ inr (right_hash ∙ ap (λ k. node_hash h n leaf k i) bottom)
        ]

  -- Two hashes of 32 bytes that the tree holds as the children of a place above the leaves, or one that it holds as
  -- the only child, are not the block's own children of that place, and have the hash of the block's node there.
  pub record HoldsCollision (mt : MerkleTree) : Type 0 where
    pub height : ℕ
    pub index : ℕ
    pub left : List ℕ
    pub right : List ℕ
    pub below_top : height < mt.max_depth
    pub left_32 : Is32 left
    pub right_32 : Is32 right
    pub left_there : node_at mt.nodes (mt.max_depth - height) (index * 2) ≡ some left
    pub right_there :
        ((ltb (index * 2 + 1) (width n height) ≡ true)
          × (node_at mt.nodes (mt.max_depth - height) (index * 2 + 1) ≡ some right))
        ⊎ ((ltb (index * 2 + 1) (width n height) ≡ false) × (right ≡ left))
    pub differs :
        left ++ right ≡ node_hash h n leaf height (index * 2) ++ right_hash h n leaf height index
        → ⊥
    pub same_hash : hash256 h (left ++ right) ≡ node_hash h n leaf (suc height) index

  Collided-HoldsCollision :
      (ws : List Write)
      → ArePlaces n (depth_of n) 0 ws
      → Collided h n leaf (depth_of n) ws
      → HoldsCollision (at n (depth_of n) (write_all (depth_of n) ws (nil_rows n (depth_of n))) 0 0)
  Collided-HoldsCollision ws places c =
      let stands : (j : ℕ) (x : List ℕ)
          → Holds c.height j x ws
          → node_at (write_all (depth_of n) ws (nil_rows n (depth_of n))) (depth_of n - c.height) j
            ≡ some x =
        λ j x held.
          node_at-Holds n (depth_of n) c.height j x ws (nil_rows n (depth_of n))
            (nil_rows-IsShaped n (depth_of n)) places held in
      record {
        height = c.height;
        index = c.index;
        left = c.left;
        right = c.right;
        below_top = c.below_top;
        left_32 = c.left_32;
        right_32 = c.right_32;
        left_there = stands (c.index * 2) c.left c.left_held;
        right_there = elim c.right_held [
          | inl (there, held) ↦ inl (there, stands (c.index * 2 + 1) c.right held)
          | inr twice ↦ inr twice
        ];
        differs = c.differs;
        same_hash = c.same_hash;
      }

  -- What a proof gives that is accepted
  abbrev Proves : MerkleTree → Type 0
  Proves mt = root mt ≡ ok (node_hash h n leaf (depth_of n) 0) → HoldsLeaves mt ⊎ HoldsCollision mt

  finished-Proves :
      (w : Walked)
      → 0 < n
      → Sound h n leaf (depth_of n) (depth_of n) 0 w
      → EndsAt (depth_of n) 0 w
      → Ensures Proves (finished n w)
  finished-Proves w some_leaf (sized, left, places, held, right) ends = used w.hashes_left
    where
      rooted :
          (r : List ℕ)
          → root (at n (depth_of n) (write_all (depth_of n) w.writes (nil_rows n (depth_of n))) 0 0)
            ≡ ok r
          → w.node ≡ r
      rooted r e =
          let found =
            root-write_all n (depth_of n) (nil_rows n (depth_of n)) w
              (nil_rows-IsShaped n (depth_of n)) (width-halvings n n some_leaf (omega arith))
              ends in
          cc

      holds :
          (AreRight h n leaf (depth_of n) w.writes) ⊎ Collided h n leaf (depth_of n) w.writes
          → HoldsLeaves
              (at n (depth_of n) (write_all (depth_of n) w.writes (nil_rows n (depth_of n))) 0 0)
            ⊎ HoldsCollision
                (at n (depth_of n) (write_all (depth_of n) w.writes (nil_rows n (depth_of n))) 0 0)
      holds (inl all_right) = inl (written-HoldsLeaves w.writes all_right)
      holds (inr collided) = inr (Collided-HoldsCollision w.writes places collided)

      used :
          (hs : List (List ℕ))
          → Ensures Proves (
              all_used hs
                (at n (depth_of n) (write_all (depth_of n) w.writes (nil_rows n (depth_of n))) 0 0))
      used [] = λ e. holds (right (rooted (node_hash h n leaf (depth_of n) 0) e))
      used (x ∷ hs) = tt

  populate_tree-Proves :
      (flags : List ℕ) (hashes : List (List ℕ))
      → 0 < n
      → ((i : ℕ) → Is32 (leaf i))
      → All Is32 hashes
      → Ensures Proves (do mt ← new_empty_merkle_tree n; populate_tree h flags hashes mt)
  populate_tree-Proves flags hashes p sized a =
      let one : width n (depth_of n) ≡ 1 = width-halvings n n p (omega arith) in
      rw (new_empty_merkle_tree_eq n p, populate_tree_eq h n flags hashes p)
        (both (walk h n (depth_of n) 0 flags hashes)
          (walk-Sound h n leaf (depth_of n) (depth_of n) 0 flags hashes (omega arith) (omega arith)
            sized a)
          (walk-EndsAt h n (depth_of n) 0 flags hashes))
    where
      both :
          (m : Result Walked)
          → Ensures (Sound h n leaf (depth_of n) (depth_of n) 0) m
          → Ensures (EndsAt (depth_of n) 0) m
          → Ensures Proves (m >>= finished n)
      both (ok w) sound ends = finished-Proves w p sound ends
      both (err e) sound ends = tt
      both panic sound ends = tt
      both out_of_fuel sound ends = tt

  -- A proof of hashes of 32 bytes that PopulateTree takes on an empty tree, and whose root is MerkleRoot of the block's
  -- `n` transaction hashes: each leaf that it filled is the hash of the block's transaction at that index, or the tree
  -- that it filled holds a collision: at one of its places, 32-byte children that are not those of the block and have
  -- the hash of the block's node there.
  pub populate_tree_sound :
      (flags : List ℕ) (hashes : List (List ℕ)) (empty mt : MerkleTree) (i : ℕ) (x : List ℕ)
      → 0 < n
      → ((j : ℕ) → Is32 (leaf j))
      → All Is32 hashes
      → new_empty_merkle_tree n ≡ ok empty
      → populate_tree h flags hashes empty ≡ ok mt
      → root mt ≡ merkle_root h (values_from leaf 0 n)
      → node_at mt.nodes mt.max_depth i ≡ some x
      → (x ≡ []) ⊎ (x ≡ leaf i) ⊎ HoldsCollision mt
  populate_tree_sound flags hashes empty mt i x p sized a made taken rooted there =
      let proves : Proves mt = subst (Ensures Proves) taken (
        subst (λ m. Ensures Proves (do t ← m; populate_tree h flags hashes t)) made
          (populate_tree-Proves flags hashes p sized a)) in
      elim (proves (rooted ∙ merkle_root-node_hash h n leaf p)) [
        | inl holds ↦ elim (holds i x there) [ inl nil ↦ inl nil | inr right ↦ inr (inl right) ]
        | inr broken ↦ inr (inr broken)
      ]
