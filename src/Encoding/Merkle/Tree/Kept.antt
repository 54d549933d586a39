-- ===== src/Encoding/Merkle/Tree/Kept.antt =====
-- Writes that no later one undoes, and the places of the tree that hold them.
use go_bitcoin.Base.{
  ℕ, zero, suc, ◌+◌, ◌-◌, ◌/◌, ◌≤◌, ◌<◌, List, [], ◌∷◌, ◌++◌, length, All, All-append,
}
use go_bitcoin.Base.{get_elem?, some, ◌⊎◌, inl, inr, ◌≡◌, refl, sym, ap, ◌∙◌, arith}
use go_bitcoin.Base.Slices.{get_elem?-set_self, get_elem?-set_other}
use go_bitcoin.Encoding.Merkle.Tree.Rows.{width, Rows, IsShaped, put, put-IsShaped}
use go_bitcoin.Encoding.Merkle.Tree.Walk.{Write, write_all}
use go_bitcoin.Encoding.Merkle.Tree.Places.{node_at}

-- The index of the node some rows above a node
abbrev ancestor : ℕ → ℕ → ℕ
ancestor zero j = j
ancestor (suc d) j = ancestor d (j / 2)

ancestor_half : (d j : ℕ) → ancestor (suc d) j ≡ ancestor d j / 2
ancestor_half zero j = refl
ancestor_half (suc d) j = ancestor_half d (j / 2)

-- The place at the height `h` and the index `j` stands in the subtree of the one at `k` and `i`.
abbrev pub Below : ℕ → ℕ → ℕ → ℕ → Type 0
Below k i h j = (d : ℕ) × (h + d ≡ k) × (ancestor d j ≡ i)

pub Below-self : (k i : ℕ) → Below k i k i
Below-self k i = (0, omega arith, refl)

pub Below-suc : (k a i h j : ℕ) → a / 2 ≡ i → Below k a h j → Below (suc k) i h j
Below-suc k a i h j e (d, sum, up) =
    (suc d, omega arith, ancestor_half d j ∙ ap (λ x. x / 2) up ∙ e)

pub Below-le : (k i h j : ℕ) → Below k i h j → h ≤ k
Below-le k i h j (d, sum, up) = omega arith

Below-unique : (k a b h j : ℕ) → Below k a h j → Below k b h j → a ≡ b
Below-unique k a b h j (d, sum, up) (d', sum', up') =
    let same : d ≡ d' = omega arith in sym up ∙ ap (λ x. ancestor x j) same ∙ up'

-- No write is at the place.
abbrev pub Untouched : ℕ → ℕ → List Write → Type 0
Untouched h j ws = All (λ (w : Write). w.height ≡ h → w.index ≡ j → ⊥) ws

-- The last write at the place is that of `x`.
abbrev pub Holds : ℕ → ℕ → List ℕ → List Write → Type 0
Holds h j x [] = ⊥
Holds h j x (w ∷ ws) =
    ((w.height ≡ h) × (w.index ≡ j) × (w.value ≡ x) × Untouched h j ws) ⊎ Holds h j x ws

pub Holds-append_left :
    (h j : ℕ) (x : List ℕ) (ws vs : List Write)
    → Holds h j x ws
    → Untouched h j vs
    → Holds h j x (ws ++ vs)
Holds-append_left h j x [] vs held free = absurd held
Holds-append_left h j x (w ∷ ws) vs (inl (p, q, e, left)) free =
    inl (p, q, e, All-append (λ (w : Write). w.height ≡ h → w.index ≡ j → ⊥) ws vs left free)
Holds-append_left h j x (w ∷ ws) vs (inr held) free = inr (Holds-append_left h j x ws vs held free)

pub Holds-append_right :
    (h j : ℕ) (x : List ℕ) (ws vs : List Write) → Holds h j x vs → Holds h j x (ws ++ vs)
Holds-append_right h j x [] vs held = held
Holds-append_right h j x (w ∷ ws) vs held = inr (Holds-append_right h j x ws vs held)

module _ (n : ℕ) where
  -- The places of a subtree that the tree of `n` leaves has
  abbrev pub IsPlace : ℕ → ℕ → Write → Type 0
  IsPlace k i w = Below k i w.height w.index × (w.index < width n w.height)

  abbrev pub ArePlaces : ℕ → ℕ → List Write → Type 0
  ArePlaces k i ws = All (IsPlace k i) ws

  pub Holds-Below :
      (k i h j : ℕ) (x : List ℕ) (ws : List Write)
      → ArePlaces k i ws
      → Holds h j x ws
      → Below k i h j × (j < width n h)
  Holds-Below k i h j x [] places held = absurd held
  Holds-Below k i h j x (w ∷ ws) ((below, inside), places) (inl (p, q, e, free)) =
      rw (← p, ← q) (below, inside)
  Holds-Below k i h j x (w ∷ ws) (place, places) (inr held) = Holds-Below k i h j x ws places held

  pub ArePlaces-suc :
      (k a i : ℕ) (ws : List Write) → a / 2 ≡ i → ArePlaces k a ws → ArePlaces (suc k) i ws
  ArePlaces-suc k a i [] e places = tt
  ArePlaces-suc k a i (w ∷ ws) e ((below, inside), places) =
      ((Below-suc k a i w.height w.index e below, inside), ArePlaces-suc k a i ws e places)

  -- Writes in one subtree leave the other one as it is.
  pub apart :
      (k a b h j : ℕ) (ws : List Write)
      → (a ≡ b → ⊥)
      → Below k a h j
      → ArePlaces k b ws
      → Untouched h j ws
  apart k a b h j [] other below places = tt
  apart k a b h j (w ∷ ws) other below ((there, inside), places) = (
    (λ p q. other (Below-unique k a b h j below (rw (p, q) at there))),
    apart k a b h j ws other below places,
  )

node_at-put_same :
    (rows : Rows) (depth i : ℕ) (v : List ℕ) {row : List (List ℕ)}
    → get_elem? rows depth ≡ some row
    → i < length row
    → node_at (put rows depth i v) depth i ≡ some v
node_at-put_same [] depth i v e h = cc
node_at-put_same (r ∷ rows) zero i v {row} e h =
    let same : r ≡ row = cc in get_elem?-set_self r i v (omega (arith, ap length same))
node_at-put_same (r ∷ rows) (suc depth) i v e h = node_at-put_same rows depth i v e h

node_at-put_other :
    (rows : Rows) (depth i depth' j : ℕ) (v : List ℕ)
    → (depth ≡ depth' → i ≡ j → ⊥)
    → node_at (put rows depth i v) depth' j ≡ node_at rows depth' j
node_at-put_other [] depth i depth' j v other = refl
node_at-put_other (r ∷ rows) zero i zero j v other = get_elem?-set_other r i j v (other refl)
node_at-put_other (r ∷ rows) zero i (suc depth') j v other = refl
node_at-put_other (r ∷ rows) (suc depth) i zero j v other = refl
node_at-put_other (r ∷ rows) (suc depth) i (suc depth') j v other =
    node_at-put_other rows depth i depth' j v (λ e. other (ap suc e))

module _ (n top : ℕ) where
  node_at-Untouched :
      (h j : ℕ) (ws : List Write) (rows : Rows)
      → h ≤ top
      → ArePlaces n top 0 ws
      → Untouched h j ws
      → node_at (write_all top ws rows) (top - h) j ≡ node_at rows (top - h) j
  node_at-Untouched h j [] rows low places free = refl
  node_at-Untouched h j (w ∷ ws) rows low ((below, inside), places) (other, free) =
      let low' : w.height ≤ top = Below-le top 0 w.height w.index below in
      node_at-Untouched h j ws (put rows (top - w.height) w.index w.value) low places free
      ∙ node_at-put_other rows (top - w.height) w.index (top - h) j w.value
          (λ e. other (omega arith))

  -- What was written last at a place stands there.
  pub node_at-Holds :
      (h j : ℕ) (x : List ℕ) (ws : List Write) (rows : Rows)
      → IsShaped n top rows
      → ArePlaces n top 0 ws
      → Holds h j x ws
      → node_at (write_all top ws rows) (top - h) j ≡ some x
  node_at-Holds h j x [] rows shaped places held = absurd held
  node_at-Holds h j x (w ∷ ws) rows shaped ((below, inside), places) (inl (p, q, e, free)) =
      let low' : w.height ≤ top = Below-le top 0 w.height w.index below in
      let (row, found, count) = shaped w.height low' in
      let written : node_at (put rows (top - w.height) w.index w.value) (top - w.height) w.index
          ≡ some w.value =
        node_at-put_same rows (top - w.height) w.index w.value found (omega arith) in
      node_at-Untouched h j ws (put rows (top - w.height) w.index w.value) (omega arith) places free
      ∙ rw (← p, ← q, ← e) written
  node_at-Holds h j x (w ∷ ws) rows shaped (place, places) (inr held) =
      node_at-Holds h j x ws (put rows (top - w.height) w.index w.value)
        (put-IsShaped n top rows (top - w.height) w.index w.value shaped) places held
