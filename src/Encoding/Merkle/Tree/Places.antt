-- ===== src/Encoding/Merkle/Tree/Places.antt =====
-- Which hash stands at which place of a populated tree.
use go_bitcoin.Base.{ℕ, zero, suc, ◌+◌, ◌-◌, ◌*◌, List, [], ◌∷◌, ◌++◌, ltb, ◌==◌}
use go_bitcoin.Base.{
  Bool-cases, length, All, get_elem?, Option, none, some, ◌⊎◌, inl, inr, Ensures, Ensures-bind,
}
use go_bitcoin.Base.{
  Result, ok, ◌≡◌, refl, sym, ap, ◌∙◌, arith, append_assoc, err, panic, out_of_fuel,
}
use go_bitcoin.Base.Slices.{set, read_index}
use go_bitcoin.Encoding.Hash.{Hashes}
use go_bitcoin.Encoding.Merkle.Tree.{nil_row, nil_rows, num_items, root}
use go_bitcoin.Encoding.Merkle.Tree.Rows.{width, Rows, IsShaped, put, at}
use go_bitcoin.Encoding.Merkle.Tree.Walk.{Write, Walked, walk, walk_hash, walk_right}
use go_bitcoin.Encoding.Merkle.Tree.Walk.{write_all, write_all-append, write_all-IsShaped}

-- The hash at a depth and an index, where the tree has that place
abbrev pub node_at : Rows → ℕ → ℕ → Option (List ℕ)
node_at [] depth i = none
node_at (row ∷ rows) zero i = get_elem? row i
node_at (row ∷ rows) (suc depth) i = node_at rows depth i

get_elem?-set :
    (xs : List (List ℕ)) (i j : ℕ) (v x : List ℕ)
    → get_elem? (set xs i v) j ≡ some x
    → ((i ≡ j) × (v ≡ x)) ⊎ (get_elem? xs j ≡ some x)
get_elem?-set [] i j v x e = inr e
get_elem?-set (y ∷ xs) zero zero v x e = inl (refl, cc)
get_elem?-set (y ∷ xs) zero (suc j) v x e = inr e
get_elem?-set (y ∷ xs) (suc i) zero v x e = inr e
get_elem?-set (y ∷ xs) (suc i) (suc j) v x e = elim (get_elem?-set xs i j v x e) [
  | inl (p, q) ↦ inl (ap suc p, q)
  | inr o ↦ inr o
]

node_at-put :
    (rows : Rows) (depth i depth' j : ℕ) (v x : List ℕ)
    → node_at (put rows depth i v) depth' j ≡ some x
    → ((depth ≡ depth') × (i ≡ j) × (v ≡ x)) ⊎ (node_at rows depth' j ≡ some x)
node_at-put [] depth i depth' j v x e = inr e
node_at-put (row ∷ rows) zero i zero j v x e = elim (get_elem?-set row i j v x e) [
  | inl (p, q) ↦ inl (refl, p, q)
  | inr o ↦ inr o
]
node_at-put (row ∷ rows) zero i (suc depth') j v x e = inr e
node_at-put (row ∷ rows) (suc depth) i zero j v x e = inr e
node_at-put (row ∷ rows) (suc depth) i (suc depth') j v x e =
    elim (node_at-put rows depth i depth' j v x e) [
      | inl (p, q, r) ↦ inl (ap suc p, q, r)
      | inr o ↦ inr o
    ]

nil_row-nil : (k i : ℕ) (x : List ℕ) → get_elem? (nil_row k) i ≡ some x → x ≡ []
unfolding nil_row
nil_row-nil zero i x e = cc
nil_row-nil (suc k) zero x e = cc
nil_row-nil (suc k) (suc i) x e = nil_row-nil k i x e

pub nil_rows-nil : (n k depth i : ℕ) (x : List ℕ) → node_at (nil_rows n k) depth i ≡ some x → x ≡ []
unfolding nil_rows
nil_rows-nil n zero zero i x e = nil_row-nil (num_items n 0) i x e
nil_rows-nil n zero (suc depth) i x e = cc
nil_rows-nil n (suc k) zero i x e = nil_row-nil (num_items n (suc k)) i x e
nil_rows-nil n (suc k) (suc depth) i x e = nil_rows-nil n k depth i x e

-- What stands in the tree afterwards was written, or stood there before.
pub node_at-write_all :
    (P : ℕ → ℕ → List ℕ → Type 0) (top : ℕ) (ws : List Write) (rows : Rows)
    → All (λ (w : Write). P (top - w.height) w.index w.value) ws
    → ((depth i : ℕ) (x : List ℕ) → node_at rows depth i ≡ some x → P depth i x)
    → (depth i : ℕ) (x : List ℕ) → node_at (write_all top ws rows) depth i ≡ some x
    → P depth i x
node_at-write_all P top [] rows right before depth i x e = before depth i x e
node_at-write_all P top (w ∷ ws) rows (r, right) before depth i x e =
    node_at-write_all P top ws (put rows (top - w.height) w.index w.value) right
      (λ depth' j y e'. elim (node_at-put rows (top - w.height) w.index depth' j w.value y e') [
        | inl (p, q, same) ↦ rw (← p, ← q, ← same) r
        | inr o ↦ before depth' j y o
      ])
      depth i x e

-- The last write of a walk is that of its own node.
abbrev pub EndsAt : ℕ → ℕ → Walked → Type 0
EndsAt k i w =
    (ws : List Write) × (w.writes ≡ ws ++ (record { height = k; index = i; value = w.node } ∷ []))

walk_hash-EndsAt :
    (k i : ℕ) (flags : List ℕ) (hashes : List (List ℕ))
    → Ensures (EndsAt k i) (walk_hash k i flags hashes)
walk_hash-EndsAt k i flags [] = tt
walk_hash-EndsAt k i flags (x ∷ hashes) = ([], refl)

pub Ensures-any {ℓ κ} :
    {A : Type ℓ} (P : A → Type κ) → ((a : A) → P a) → (m : Result A) → Ensures P m
Ensures-any P h (ok a) = h a
Ensures-any P h (err e) = tt
Ensures-any P h panic = tt
Ensures-any P h out_of_fuel = tt

pub walk-EndsAt :
    (h : Hashes) (n k i : ℕ) (flags : List ℕ) (hashes : List (List ℕ))
    → Ensures (EndsAt k i) (walk h n k i flags hashes)
unfolding walk
walk-EndsAt h n zero i [] hashes = tt
walk-EndsAt h n zero i (flag ∷ flags) hashes = walk_hash-EndsAt 0 i flags hashes
walk-EndsAt h n (suc k) i [] hashes = tt
walk-EndsAt h n (suc k) i (flag ∷ flags) hashes = elim (Bool-cases (flag == 0)) [
  | inl stop ↦ rw stop (walk_hash-EndsAt (suc k) i flags hashes)
  | inr more ↦ rw more (
      Ensures-bind (λ l. Unit {0}) (EndsAt (suc k) i) (walk h n k (i * 2) flags hashes) _
        (Ensures-any (λ l. Unit) (λ l. tt) (walk h n k (i * 2) flags hashes))
        (λ l x.
          Ensures-bind (λ r. Unit {0}) (EndsAt (suc k) i)
            (walk_right (walk h n k) i l (ltb (i * 2 + 1) (width n k))) _
            (Ensures-any (λ l. Unit) (λ l. tt)
              (walk_right (walk h n k) i l (ltb (i * 2 + 1) (width n k))))
            (λ r y. (l.writes ++ r.writes, sym (append_assoc l.writes r.writes _)))))
]

root-put :
    (n top : ℕ) (rows : Rows) (v : List ℕ)
    → IsShaped n top rows
    → width n top ≡ 1
    → root (at n top (put rows 0 0 v) 0 0) ≡ ok v
unfolding root read_index
root-put n top [] v shaped one = let (row, found, len) = shaped top (omega arith) in cc
root-put n top ([] ∷ rows) v shaped one =
    let (row, found, len) = shaped top (omega arith) in
    let first : top - top ≡ 0 = omega arith in
    let nil : some [] ≡ some row = sym (ap (get_elem? ([] ∷ rows)) first) ∙ found in
    let same : [] ≡ row = cc in
    let count : length {A = List ℕ} [] ≡ length row = ap length same in absurd (omega arith)
root-put n top ((x ∷ row) ∷ rows) v shaped one = refl

pub root-write_all :
    (n top : ℕ) (rows : Rows) (w : Walked)
    → IsShaped n top rows
    → width n top ≡ 1
    → EndsAt top 0 w
    → root (at n top (write_all top w.writes rows) 0 0) ≡ ok w.node
root-write_all n top rows w shaped one (ws, e) =
    let zero_depth : top - top ≡ 0 = omega arith in
    rw
      (
        e,
        write_all-append top ws (record { height = top; index = 0; value = w.node } ∷ []) rows,
        zero_depth,
      )
      (root-put n top (write_all top ws rows) w.node (write_all-IsShaped n top ws rows shaped) one)
