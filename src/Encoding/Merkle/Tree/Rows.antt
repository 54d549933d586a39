-- ===== src/Encoding/Merkle/Tree/Rows.antt =====
-- The rows of a merkle tree: how many nodes each has, and what the operations of the cursor do on them.
use go_bitcoin.Base.{
  ℕ, zero, suc, ◌+◌, ◌-◌, ◌*◌, ◌/◌, ◌^◌, ◌≤◌, ◌<◌, true, false, List, [], ◌∷◌, ltb,
}
use go_bitcoin.Base.{length, get_elem?, some, ok, ◌≡◌, refl, sym, ap, ◌∙◌, arith, lt→ltb}
use go_bitcoin.Base.{Bool-cases, inl, inr, ltb→lt}
use go_bitcoin.Base.Slices.{write_index, set, read_index-ok, write_index-ok, length-set}
use native.Mathlib.Nat.{pow-suc, one-le-pow, add-div_right, div-div-eq-div-mul}
use go_bitcoin.Encoding.Merkle.Tree.{
  MerkleTree, halvings, num_items, nil_row, nil_rows, up, left, right, is_leaf,
}
use go_bitcoin.Encoding.Merkle.Tree.{right_exists, set_current_node}

-- The nodes of the row that is `k` above the `n` leaves
abbrev pub width : ℕ → ℕ → ℕ
width n zero = n
width n (suc k) = (width n k + 1) / 2

width-halved : (n k : ℕ) → width n (suc k) ≡ width ((n + 1) / 2) k
width-halved n zero = refl
width-halved n (suc k) = ap (λ w. (w + 1) / 2) (width-halved n k)

-- The logarithm reaches the row with one node.
pub width-halvings : (fuel n : ℕ) → 0 < n → n ≤ fuel → width n (halvings fuel n) ≡ 1
unfolding halvings
width-halvings zero n p h = absurd (omega arith)
width-halvings (suc fuel) n p h = elim (Bool-cases (ltb 1 n)) [
  | inl more ↦
      let many : 1 < n = ltb→lt 1 n more in
      rw more (
        width-halved n (halvings fuel ((n + 1) / 2))
        ∙ width-halvings fuel ((n + 1) / 2) (omega arith) (omega arith))
  | inr one ↦ rw one (ground arith)
]

pub num_items-eq-width : (n k : ℕ) → num_items n k ≡ width n k
unfolding num_items
num_items-eq-width n zero = omega arith
num_items-eq-width n (suc k) =
    let p = 2 ^ k in
    let positive : 1 ≤ p = one-le-pow k 2 (omega arith) in
    let doubled : 2 ^ suc k ≡ p * 2 = pow-suc 2 k in
    let sum : n + (p * 2 - 1) ≡ (n + (p - 1)) + p = omega arith in
    let ih : (n + (p - 1)) / p ≡ width n k = unfold num_items in num_items-eq-width n k in
    rw
      (
        doubled,
        sum,
        ← div-div-eq-div-mul ((n + (p - 1)) + p) p 2,
        add-div_right (n + (p - 1)) {k = p} (omega arith),
        ih,
      )
      refl

abbrev pub Rows : Type 0
Rows = List (List (List ℕ))

-- Each row has as many places as nodes.
abbrev pub IsShaped : ℕ → ℕ → Rows → Type 0
IsShaped n top rows =
    (k : ℕ)
    → k ≤ top
    → (row : List (List ℕ)) × (get_elem? rows (top - k) ≡ some row) × (length row ≡ width n k)

length-nil_row : (k : ℕ) → length (nil_row k) ≡ k
unfolding nil_row
length-nil_row zero = refl
length-nil_row (suc k) = ap suc (length-nil_row k)

nil_rows-row :
    (n top below : ℕ)
    → below ≤ top
    → get_elem? (nil_rows n top) below ≡ some (nil_row (num_items n (top - below)))
unfolding nil_rows
nil_rows-row n zero zero h = refl
nil_rows-row n zero (suc below) h = absurd (omega arith)
nil_rows-row n (suc top) zero h = ap (λ k. some (nil_row (num_items n k))) (omega arith)
nil_rows-row n (suc top) (suc below) h =
    nil_rows-row n top below (omega arith) ∙ ap (λ k. some (nil_row (num_items n k))) (omega arith)

pub nil_rows-IsShaped : (n top : ℕ) → IsShaped n top (nil_rows n top)
nil_rows-IsShaped n top k h =
    let same : top - (top - k) ≡ k = omega arith in
    (
      nil_row (num_items n k),
      nil_rows-row n top (top - k) (omega arith) ∙ ap (λ j. some (nil_row (num_items n j))) same,
      length-nil_row (num_items n k) ∙ num_items-eq-width n k,
    )

-- A node at a depth and an index is replaced.
abbrev pub put : Rows → ℕ → ℕ → List ℕ → Rows
put [] depth i v = []
put (row ∷ rows) zero i v = set row i v ∷ rows
put (row ∷ rows) (suc depth) i v = row ∷ put rows depth i v

put_row :
    (rows : Rows) (depth i j : ℕ) (v : List ℕ) {row : List (List ℕ)}
    → get_elem? rows j ≡ some row
    → (row' : List (List ℕ)) × (get_elem? (put rows depth i v) j ≡ some row')
      × (length row' ≡ length row)
put_row [] depth i j v e = cc
put_row (row ∷ rows) zero i zero v {row = r} e =
    let same : row ≡ r = cc in (set row i v, refl, length-set row i v ∙ ap length same)
put_row (row ∷ rows) zero i (suc j) v {row = r} e = (r, e, refl)
put_row (row ∷ rows) (suc depth) i zero v {row = r} e = (r, e, refl)
put_row (row ∷ rows) (suc depth) i (suc j) v e = put_row rows depth i j v e

pub put-IsShaped :
    (n top : ℕ) (rows : Rows) (depth i : ℕ) (v : List ℕ)
    → IsShaped n top rows
    → IsShaped n top (put rows depth i v)
put-IsShaped n top rows depth i v shaped k h =
    let (row, found, len) = shaped k h in
    let (row', found', len') = put_row rows depth i (top - k) v found in (row', found', len' ∙ len)

put-set :
    (rows : Rows) (depth i : ℕ) (v : List ℕ) {row : List (List ℕ)}
    → get_elem? rows depth ≡ some row
    → write_index rows depth (set row i v) ≡ ok (put rows depth i v)
unfolding write_index
put-set [] depth i v e = cc
put-set (row ∷ rows) zero i v {row = r} e = let same : r ≡ row = cc in rw same refl
put-set (row ∷ rows) (suc depth) i v e = rw (put-set rows depth i v e) refl

-- The tree with its cursor at a node
abbrev pub at : ℕ → ℕ → Rows → ℕ → ℕ → MerkleTree
at n top rows depth i = record {
  total = n;
  max_depth = top;
  nodes = rows;
  current_depth = depth;
  current_index = i;
}

module _ (n top : ℕ) (rows : Rows) (depth i : ℕ) where
  pub set_current_node_eq :
      (k : ℕ) (v : List ℕ)
      → IsShaped n top rows
      → depth + k ≡ top
      → i < width n k
      → set_current_node v (at n top rows depth i) ≡ ok (at n top (put rows depth i v) depth i)
  unfolding set_current_node
  set_current_node_eq k v shaped level h =
      let (row, found, len) = shaped k (omega arith) in
      let depth_eq : top - k ≡ depth = omega arith in
      let found' : get_elem? rows depth ≡ some row = sym (ap (get_elem? rows) depth_eq) ∙ found in
      rw
        (
          read_index-ok rows depth found',
          write_index-ok row i v (omega arith),
          put-set rows depth i v found',
        )
        refl

  pub is_leaf-bottom : depth ≡ top → is_leaf (at n top rows depth i) ≡ true
  unfolding is_leaf
  is_leaf-bottom e = ground arith

  pub is_leaf-inner : (k : ℕ) → depth + suc k ≡ top → is_leaf (at n top rows depth i) ≡ false
  unfolding is_leaf
  is_leaf-inner k e = ground arith

  pub left_eq :
      (k : ℕ)
      → depth + suc k ≡ top
      → left (at n top rows depth i) ≡ at n top rows (depth + 1) (i * 2)
  unfolding left
  left_eq k e = rw (is_leaf-inner k e) refl

  pub right_exists_eq :
      (k : ℕ)
      → IsShaped n top rows
      → depth + suc k ≡ top
      → right_exists (at n top rows depth i) ≡ ok (ltb (i * 2 + 1) (width n k))
  unfolding right_exists
  right_exists_eq k shaped e =
      let (row, found, len) = shaped k (omega arith) in
      let depth_eq : top - k ≡ depth + 1 = omega arith in
      let found' : get_elem? rows (depth + 1) ≡ some row =
        sym (ap (get_elem? rows) depth_eq) ∙ found in
      rw (read_index-ok rows (depth + 1) found', len) refl

  pub right_eq :
      (k : ℕ)
      → IsShaped n top rows
      → depth + suc k ≡ top
      → i * 2 + 1 < width n k
      → right (at n top rows depth i) ≡ ok (at n top rows (depth + 1) (i * 2 + 1))
  unfolding right
  right_eq k shaped e h =
      rw (is_leaf-inner k e, right_exists_eq k shaped e, lt→ltb (i * 2 + 1) (width n k) h) refl

  pub up_left : up (at n top rows (depth + 1) (i * 2)) ≡ at n top rows depth i
  unfolding up
  up_left = ground arith

  pub up_right : up (at n top rows (depth + 1) (i * 2 + 1)) ≡ at n top rows depth i
  unfolding up
  up_right = ground arith
