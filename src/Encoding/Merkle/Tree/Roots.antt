-- ===== src/Encoding/Merkle/Tree/Roots.antt =====
-- MerkleRoot of any number of hashes is the root of the tree that PopulateTree works on.
use go_bitcoin.Base.{ℕ, zero, suc, ◌+◌, ◌*◌, ◌/◌, ◌%◌, ◌≤◌, ◌<◌, List, [], ◌∷◌, ◌++◌, ltb, ◌==◌}
use go_bitcoin.Base.{true, false, Bool-cases, inl, inr, length}
use go_bitcoin.Base.{Result, ok, ◌>>=◌, ◌≡◌, refl, sym, ap, ◌∙◌, arith, lt→ltb, ltb→lt}
use go_bitcoin.Encoding.Hash.{Hashes}
use go_bitcoin.Encoding.Merkle.{
  last_hash, first_hash, merkle_parent, pair_up, merkle_parent_level, merkle_loop,
}
use go_bitcoin.Encoding.Merkle.{merkle_root}
use go_bitcoin.Encoding.Merkle.Levels.{level_even, level_odd}
use go_bitcoin.Encoding.Merkle.Perfect.{from_loop}
use go_bitcoin.Encoding.Merkle.Tree.Rows.{width}
use go_bitcoin.Encoding.Merkle.Tree.{halvings}
use go_bitcoin.Encoding.Merkle.Tree.Populate.{depth_of}
use go_bitcoin.Encoding.Merkle.Tree.Collision.{node_hash}

-- The first `k` values of a function from `i` on
abbrev pub values_from : (ℕ → List ℕ) → ℕ → ℕ → List (List ℕ)
values_from f i zero = []
values_from f i (suc k) = f i ∷ values_from f (suc i) k

length-values_from : (f : ℕ → List ℕ) (i k : ℕ) → length (values_from f i k) ≡ k
length-values_from f i zero = refl
length-values_from f i (suc k) = ap suc (length-values_from f (suc i) k)

last_hash-values_from :
    (f : ℕ → List ℕ) (i k : ℕ) → last_hash (values_from f i (suc k)) ≡ ok (f (i + k))
unfolding last_hash
last_hash-values_from f i zero = ap (λ j. ok (f j)) (omega arith)
last_hash-values_from f i (suc k) =
    last_hash-values_from f (suc i) k ∙ ap (λ j. ok (f j)) (omega arith)

module _ (h : Hashes) (n : ℕ) (leaf : ℕ → List ℕ) where
  abbrev row : ℕ → List (List ℕ)
  row k = values_from (node_hash h n leaf k) 0 (width n k)

  row-zero : row 0 ≡ values_from leaf 0 n
  unfolding node_hash
  row-zero = refl

  node_hash-two :
      (k i : ℕ)
      → i * 2 + 1 < width n k
      → node_hash h n leaf (suc k) i
        ≡ merkle_parent h (node_hash h n leaf k (i * 2)) (node_hash h n leaf k (i * 2 + 1))
  unfolding node_hash
  node_hash-two k i b = rw (lt→ltb (i * 2 + 1) (width n k) b) refl

  node_hash-one :
      (k i : ℕ)
      → width n k ≤ i * 2 + 1
      → node_hash h n leaf (suc k) i
        ≡ merkle_parent h (node_hash h n leaf k (i * 2)) (node_hash h n leaf k (i * 2))
  unfolding node_hash
  node_hash-one k i b = let no : ltb (i * 2 + 1) (width n k) ≡ false = ground arith in rw no refl

  -- An even number of nodes, from the left child of node `i` above on
  pair_up-values :
      (k i j c m : ℕ)
      → j ≡ i * 2
      → c ≡ m * 2
      → j + c ≤ width n k
      → pair_up h (values_from (node_hash h n leaf k) j c)
        ≡ ok (values_from (node_hash h n leaf (suc k)) i m)
  unfolding pair_up
  pair_up-values k i j zero zero e f b = refl
  pair_up-values k i j zero (suc m) e f b = absurd (omega arith)
  pair_up-values k i j (suc zero) m e f b = absurd (omega arith)
  pair_up-values k i j (suc (suc c)) zero e f b = absurd (omega arith)
  pair_up-values k i j (suc (suc c)) (suc m) e f b =
      let second : suc j ≡ i * 2 + 1 = omega arith in
      rw
        (
          pair_up-values k (suc i) (suc (suc j)) c m (omega arith) (omega arith) (omega arith),
          node_hash-two k i (omega arith),
          second,
          e,
        )
        refl

  -- An odd number of nodes with the last one of the row again behind them
  pair_up-values_odd :
      (k i j c m : ℕ)
      → j ≡ i * 2
      → c ≡ m * 2 + 1
      → j + c ≡ width n k
      → pair_up h
          (values_from (node_hash h n leaf k) j c ++ (node_hash h n leaf k (j + m * 2) ∷ []))
        ≡ ok (values_from (node_hash h n leaf (suc k)) i (suc m))
  unfolding pair_up
  pair_up-values_odd k i j zero m e f b = absurd (omega arith)
  pair_up-values_odd k i j (suc zero) m e f b =
      let none_left : m ≡ 0 = omega arith in
      let same : j + 0 * 2 ≡ j = omega arith in
      rw (none_left, node_hash-one k i (omega arith), same, e) refl
  pair_up-values_odd k i j (suc (suc c)) zero e f b = absurd (omega arith)
  pair_up-values_odd k i j (suc (suc c)) (suc m) e f b =
      let second : suc j ≡ i * 2 + 1 = omega arith in
      let end : j + suc m * 2 ≡ suc (suc j) + m * 2 = omega arith in
      rw
        (
          end,
          pair_up-values_odd k (suc i) (suc (suc j)) c m (omega arith) (omega arith) (omega arith),
          node_hash-two k i (omega arith),
          second,
          e,
        )
        refl

  level-row : (k : ℕ) → 0 < width n k → merkle_parent_level h (row k) ≡ ok (row (suc k))
  level-row k p = elim (Bool-cases (width n k % 2 == 0)) [
    | inl even ↦
        let w = width n k in
        let half : (w + 1) / 2 ≡ w / 2 = ground arith in
        level_even h (row k) (ground (arith, length-values_from (node_hash h n leaf k) 0 w))
        ∙ pair_up-values k 0 0 w (w / 2) (omega arith) (ground arith) (omega arith)
        ∙ ap (λ m. ok (values_from (node_hash h n leaf (suc k)) 0 m)) (sym half)
    | inr odd ↦
        let w = width n k in
        let half : (w + 1) / 2 ≡ suc (w / 2) = ground arith in
        let count : w ≡ suc (w / 2 * 2) = ground arith in
        level_odd h (row k) (node_hash h n leaf k (0 + w / 2 * 2))
          (ground (arith, length-values_from (node_hash h n leaf k) 0 w))
          (ap (λ c. last_hash (values_from (node_hash h n leaf k) 0 c)) count
            ∙ last_hash-values_from (node_hash h n leaf k) 0 (w / 2 * 2))
        ∙ pair_up-values_odd k 0 0 w (w / 2) (omega arith) (ground arith) (omega arith)
        ∙ ap (λ m. ok (values_from (node_hash h n leaf (suc k)) 0 m)) (sym half)
  ]

  merkle_loop_step :
      (fuel : ℕ) (hashes : List (List ℕ))
      → 1 < length hashes
      → merkle_loop h (suc fuel) hashes
        ≡ (do level ← merkle_parent_level h hashes; merkle_loop h fuel level)
  unfolding merkle_loop
  merkle_loop_step fuel hashes many = rw (lt→ltb 1 (length hashes) many) refl

  merkle_loop_end : (fuel : ℕ) (x : List ℕ) → merkle_loop h (suc fuel) (x ∷ []) ≡ ok x
  unfolding merkle_loop first_hash
  merkle_loop_end fuel x = refl

  merkle_loop-more :
      (fuel : ℕ) (hashes level : List (List ℕ))
      → 1 < length hashes
      → merkle_parent_level h hashes ≡ ok level
      → merkle_loop h (suc fuel) hashes ≡ merkle_loop h fuel level
  merkle_loop-more fuel hashes level many e =
      merkle_loop_step fuel hashes many
      ∙ ap (λ (r : Result (List (List ℕ))). r >>= merkle_loop h fuel) e

  halvings_more :
      (fuel k : ℕ)
      → ltb 1 (width n k) ≡ true
      → halvings fuel (width n (suc k)) + suc k ≡ halvings (suc fuel) (width n k) + k
  unfolding halvings
  halvings_more fuel k more = rw more (omega arith)

  halvings_last : (fuel k : ℕ) → ltb 1 (width n k) ≡ false → k ≡ halvings (suc fuel) (width n k) + k
  unfolding halvings
  halvings_last fuel k last = rw last (omega arith)

  merkle_loop-row :
      (fuel k : ℕ)
      → 0 < width n k
      → width n k ≤ fuel
      → merkle_loop h fuel (row k) ≡ ok (node_hash h n leaf (halvings fuel (width n k) + k) 0)
  merkle_loop-row zero k p b = absurd (omega arith)
  merkle_loop-row (suc fuel) k p b = elim (Bool-cases (ltb 1 (width n k))) [
    | inl more ↦
        let many : 1 < width n k = ltb→lt 1 (width n k) more in
        let count = length-values_from (node_hash h n leaf k) 0 (width n k) in
        merkle_loop-more fuel (row k) (row (suc k)) (omega arith) (level-row k p)
        ∙ merkle_loop-row fuel (suc k) (omega arith) (omega arith)
        ∙ ap (λ d. ok (node_hash h n leaf d 0)) (halvings_more fuel k more)
    | inr last ↦
        let one : width n k ≡ 1 = ground arith in
        ap (λ c. merkle_loop h (suc fuel) (values_from (node_hash h n leaf k) 0 c)) one
        ∙ merkle_loop_end fuel (node_hash h n leaf k 0)
        ∙ ap (λ d. ok (node_hash h n leaf d 0)) (halvings_last fuel k last)
  ]

  -- MerkleRoot of the hashes of `n` transactions, one at least, is the hash at the root of their tree, in which a node
  -- without a right child has the left one twice.
  pub merkle_root-node_hash :
      0 < n → merkle_root h (values_from leaf 0 n) ≡ ok (node_hash h n leaf (depth_of n) 0)
  merkle_root-node_hash p =
      let count = length-values_from leaf 0 n in
      from_loop h (values_from leaf 0 n) (omega arith) (
        ap (λ c. merkle_loop h c (values_from leaf 0 n)) count
        ∙ ap (merkle_loop h n) (sym row-zero)
        ∙ merkle_loop-row n 0 p (omega arith)
        ∙ ap (λ d. ok (node_hash h n leaf d 0)) (omega arith))
