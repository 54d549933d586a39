-- ===== src/Encoding/Merkle/Perfect.antt =====
-- The merkle root of a perfect binary tree's leaves.
use go_bitcoin.Base.{ℕ, zero, suc, ◌^◌, ◌≤◌, ◌<◌, List, [], ◌∷◌, ◌++◌}
use go_bitcoin.Base.{length, length-append, lt→ltb, bind_ok_inversion}
use go_bitcoin.Base.{ok, ◌≡◌, refl, ap, ap₂, ◌∙◌, arith}
use native.Mathlib.Nat.{pow-suc, one-le-pow}
use go_bitcoin.Encoding.Hash.{Hashes}
use go_bitcoin.Encoding.Merkle.{first_hash, merkle_parent, pair_up}
use go_bitcoin.Encoding.Merkle.{merkle_loop, merkle_root}
use go_bitcoin.Encoding.Merkle.Levels.{level_even}

-- A tree of the given depth with hashes at its leaves.
pub data Perfect : ℕ → Type 0 where
  leaf : List ℕ → Perfect 0
  node : {k : ℕ} → Perfect k → Perfect k → Perfect (suc k)

abbrev pub leaves : {k : ℕ} → Perfect k → List (List ℕ)
leaves (leaf x) = x ∷ []
leaves (node l r) = leaves l ++ leaves r

length-leaves : {k : ℕ} (t : Perfect k) → length (leaves t) ≡ 2 ^ k
length-leaves (leaf x) = refl
length-leaves {k = suc k} (node l r) =
    omega
      (arith, length-append (leaves l) (leaves r), length-leaves l, length-leaves r, pow-suc 2 k)

leaves_positive : {k : ℕ} (t : Perfect k) → 0 < length (leaves t)
leaves_positive {k = k} t = omega (arith, length-leaves t, one-le-pow k 2 (omega arith))

module _ (h : Hashes) where
  -- The hash of a tree: a node hashes the hashes of its children, one behind the other.
  abbrev pub tree_hash : {k : ℕ} → Perfect k → List ℕ
  tree_hash (leaf x) = x
  tree_hash (node l r) = merkle_parent h (tree_hash l) (tree_hash r)

  -- The tree without its lowest level.
  collapse : {k : ℕ} → Perfect (suc k) → Perfect k
  collapse (node (leaf x) (leaf y)) = leaf (merkle_parent h x y)
  collapse (node (node a b) (node c d)) = node (collapse (node a b)) (collapse (node c d))

  tree_hash-collapse : {k : ℕ} (t : Perfect (suc k)) → tree_hash (collapse t) ≡ tree_hash t
  unfolding collapse
  tree_hash-collapse (node (leaf x) (leaf y)) = refl
  tree_hash-collapse (node (node a b) (node c d)) =
      ap₂ (λ x y. merkle_parent h x y) (tree_hash-collapse (node a b))
        (tree_hash-collapse (node c d))

  pair_up-append :
      (xs ys above_xs above_ys : List (List ℕ))
      → pair_up h xs ≡ ok above_xs
      → pair_up h ys ≡ ok above_ys
      → pair_up h (xs ++ ys) ≡ ok (above_xs ++ above_ys)
  unfolding pair_up
  pair_up-append [] ys above_xs above_ys e e' = cc
  pair_up-append (x ∷ []) ys above_xs above_ys e e' = cc
  pair_up-append (x ∷ x' ∷ xs) ys above_xs above_ys e e' =
      let (more, paired, whole) = bind_ok_inversion (pair_up h xs) _ e in
      rw (pair_up-append xs ys more above_ys paired e')
        (let inj : merkle_parent h x x' ∷ more ≡ above_xs = cc in ap (λ l. ok (l ++ above_ys)) inj)

  pair_up-leaves : {k : ℕ} (t : Perfect (suc k)) → pair_up h (leaves t) ≡ ok (leaves (collapse t))
  unfolding pair_up collapse
  pair_up-leaves (node (leaf x) (leaf y)) = refl
  pair_up-leaves (node (node a b) (node c d)) =
      pair_up-append (leaves (node a b)) (leaves (node c d)) _ _ (pair_up-leaves (node a b))
        (pair_up-leaves (node c d))

  merkle_loop-leaves :
      {k : ℕ} (fuel : ℕ) (t : Perfect k)
      → length (leaves t) ≤ fuel
      → merkle_loop h fuel (leaves t) ≡ ok (tree_hash t)
  unfolding merkle_loop first_hash
  merkle_loop-leaves zero t e = absurd (omega (arith, leaves_positive t))
  merkle_loop-leaves (suc fuel) (leaf x) e = refl
  merkle_loop-leaves {k = suc k} (suc fuel) (node l r) e =
      let t : Perfect (suc k) = node l r in
      let up = collapse t in
      let count = length-leaves t in
      let count_up = length-leaves up in
      let even = level_even h (leaves t) (omega (arith, count, pow-suc 2 k)) in
      let shorter : length (leaves up) ≤ fuel =
        omega (arith, count, count_up, pow-suc 2 k, one-le-pow k 2 (omega arith)) in
      let many : 1 < length (leaves t) =
        omega (arith, count, pow-suc 2 k, one-le-pow k 2 (omega arith)) in
      rw (lt→ltb 1 (length (leaves t)) many, even, pair_up-leaves t)
        (merkle_loop-leaves fuel up shorter ∙ ap ok (tree_hash-collapse t))

  pub from_loop :
      (hashes : List (List ℕ)) {root : List ℕ}
      → 0 < length hashes
      → merkle_loop h (length hashes) hashes ≡ ok root
      → merkle_root h hashes ≡ ok root
  unfolding merkle_root
  from_loop [] some e = absurd (omega arith)
  from_loop (x ∷ xs) some e = e

  -- MerkleRoot of the leaves of a perfect binary tree is the hash of the tree.
  pub merkle_root-leaves : {k : ℕ} (t : Perfect k) → merkle_root h (leaves t) ≡ ok (tree_hash t)
  merkle_root-leaves t =
      from_loop (leaves t) (leaves_positive t)
        (merkle_loop-leaves (length (leaves t)) t (omega arith))
