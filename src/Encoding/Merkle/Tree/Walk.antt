-- ===== src/Encoding/Merkle/Tree/Walk.antt =====
-- What PopulateTree computes, without the tree: the flags and hashes of a node at a height over the leaves.
use go_bitcoin.Base.{
  ℕ, zero, suc, ◌+◌, ◌-◌, ◌*◌, ◌<◌, Bool, true, false, List, [], ◌∷◌, ◌++◌, ltb, ◌==◌,
}
use go_bitcoin.Base.{if◌then◌else◌, Result, ok, err, ◌>>=◌, invalid_input}
use go_bitcoin.Base.{◌≡◌, refl, sym, arith, Bool-cases, inl, inr, ltb→lt, bind_in_steps, bind_agree}
use go_bitcoin.Encoding.Hash.{Hashes}
use go_bitcoin.Encoding.Merkle.{merkle_parent}
use go_bitcoin.Encoding.Merkle.Tree.{MerkleTree, Traversal, up, set_current_node}
use go_bitcoin.Encoding.Merkle.Tree.{use_hash, go_right, descend, traverse}
use go_bitcoin.Encoding.Merkle.Tree.Rows.{
  width, Rows, IsShaped, put, put-IsShaped, at, set_current_node_eq,
}
use go_bitcoin.Encoding.Merkle.Tree.Rows.{
  is_leaf-bottom, is_leaf-inner, left_eq, right_eq, right_exists_eq,
}
use go_bitcoin.Encoding.Merkle.Tree.Rows.{up_left, up_right}

-- A hash that is written at a height and an index
pub record Write : Type 0 where
  pub height : ℕ
  pub index : ℕ
  pub value : List ℕ

-- The flags and hashes that are left, the hash of the node and what was written
pub record Walked : Type 0 where
  pub flags_left : List ℕ
  pub hashes_left : List (List ℕ)
  pub node : List ℕ
  pub writes : List Write

abbrev pub walk_hash : ℕ → ℕ → List ℕ → List (List ℕ) → Result Walked
walk_hash k i flags [] = err invalid_input
walk_hash k i flags (x ∷ hashes) = ok (record {
  flags_left = flags;
  hashes_left = hashes;
  node = x;
  writes = record { height = k; index = i; value = x } ∷ [];
})

abbrev pub Walk : Type 0
Walk = ℕ → List ℕ → List (List ℕ) → Result Walked

-- Where there is no right child the left hash stands for it.
abbrev pub walk_right : Walk → ℕ → Walked → Bool → Result Walked
walk_right walk i l true = walk (i * 2 + 1) l.flags_left l.hashes_left
walk_right walk i l false = ok (record l { writes = [] })

module _ (h : Hashes) where
  abbrev pub joined : ℕ → ℕ → Walked → Walked → Walked
  joined k i l r =
      let parent = merkle_parent h l.node r.node in
      record {
        flags_left = r.flags_left;
        hashes_left = r.hashes_left;
        node = parent;
        writes =
            l.writes ++ (r.writes ++ (record { height = suc k; index = i; value = parent } ∷ []));
      }

  abbrev pub walk_children : ℕ → ℕ → Walk → Walk
  walk_children n k walk i flags hashes = do
    l ← walk (i * 2) flags hashes
    r ← walk_right walk i l (ltb (i * 2 + 1) (width n k))
    ok (joined k i l r)

  unfoldable pub walk : ℕ → ℕ → Walk
  walk n zero i [] hashes = err invalid_input
  walk n zero i (flag ∷ flags) hashes = walk_hash 0 i flags hashes
  walk n (suc k) i [] hashes = err invalid_input
  walk n (suc k) i (flag ∷ flags) hashes =
      if flag == 0
      then walk_hash (suc k) i flags hashes
      else walk_children n k (walk n k) i flags hashes

abbrev pub write_all : ℕ → List Write → Rows → Rows
write_all top [] rows = rows
write_all top (w ∷ ws) rows = write_all top ws (put rows (top - w.height) w.index w.value)

pub write_all-IsShaped :
    (n top : ℕ) (ws : List Write) (rows : Rows)
    → IsShaped n top rows
    → IsShaped n top (write_all top ws rows)
write_all-IsShaped n top [] rows s = s
write_all-IsShaped n top (w ∷ ws) rows s =
    write_all-IsShaped n top ws (put rows (top - w.height) w.index w.value)
      (put-IsShaped n top rows (top - w.height) w.index w.value s)

pub write_all-append :
    (top : ℕ) (ws vs : List Write) (rows : Rows)
    → write_all top (ws ++ vs) rows ≡ write_all top vs (write_all top ws rows)
write_all-append top [] vs rows = refl
write_all-append top (w ∷ ws) vs rows =
    write_all-append top ws vs (put rows (top - w.height) w.index w.value)

-- The tree that PopulateTree's traversal leaves, with its cursor where it was
abbrev pub filled : ℕ → ℕ → Rows → ℕ → ℕ → Walked → Result Traversal
filled n top rows depth i w =
    ok (at n top (write_all top w.writes rows) depth i, w.flags_left, w.hashes_left, w.node)

use_hash_eq :
    (n top k depth i : ℕ) (rows : Rows) (flags : List ℕ) (hashes : List (List ℕ))
    → IsShaped n top rows
    → depth + k ≡ top
    → i < width n k
    → use_hash (at n top rows depth i) flags hashes
      ≡ (do w ← walk_hash k i flags hashes; filled n top rows depth i w)
unfolding use_hash
use_hash_eq n top k depth i rows flags [] s e b = refl
use_hash_eq n top k depth i rows flags (x ∷ hashes) s e b =
    let same : top - k ≡ depth = omega arith in
    rw (set_current_node_eq n top rows depth i k x s e b, same) refl

module _ (n top k depth i : ℕ) (e : depth + suc k ≡ top)
    (go : MerkleTree → List ℕ → List (List ℕ) → Result Traversal) (walk : Walk)
    (below : (rows : Rows) (j : ℕ) (flags : List ℕ) (hashes : List (List ℕ))
      → IsShaped n top rows
      → j < width n k
      → go (at n top rows (depth + 1) j) flags hashes
        ≡ (do w ← walk j flags hashes; filled n top rows (depth + 1) j w)) where
  go_right_eq :
      (rows : Rows) (l : Walked) (exists : Bool)
      → IsShaped n top rows
      → ltb (i * 2 + 1) (width n k) ≡ exists
      → go_right go (at n top rows depth i, l.flags_left, l.hashes_left, l.node) exists
        ≡ (do r ← walk_right walk i l exists; filled n top rows depth i r)
  unfolding go_right
  go_right_eq rows l false s b = refl
  go_right_eq rows l true s b =
      let there : i * 2 + 1 < width n k = ltb→lt (i * 2 + 1) (width n k) b in
      rw
        (
          right_eq n top rows depth i k s e there,
          below rows (i * 2 + 1) l.flags_left l.hashes_left s there,
        )
        (sym (
          bind_in_steps (walk (i * 2 + 1) l.flags_left l.hashes_left) (filled n top rows depth i)
            (filled n top rows (depth + 1) (i * 2 + 1)) (λ x. ok (up x.0, x.1, x.2, x.3))
            (λ w. rw (up_right n top (write_all top w.writes rows) depth i) refl)))

  joined_eq :
      (h : Hashes) (rows : Rows) (l r : Walked)
      → IsShaped n top rows
      → i < width n (suc k)
      → (do
        mt ←
            set_current_node
              (merkle_parent h l.node r.node)
              (at n top (write_all top r.writes (write_all top l.writes rows)) depth i)
        ok (mt, r.flags_left, r.hashes_left, merkle_parent h l.node r.node))
        ≡ filled n top rows depth i (joined h k i l r)
  joined_eq h rows l r s b =
      let below_left = write_all top l.writes rows in
      let both = write_all top r.writes below_left in
      let parent = merkle_parent h l.node r.node in
      let s' : IsShaped n top both =
        write_all-IsShaped n top r.writes below_left (write_all-IsShaped n top l.writes rows s) in
      let same : top - suc k ≡ depth = omega arith in
      let last : List Write = record { height = suc k; index = i; value = parent } ∷ [] in
      rw
        (
          set_current_node_eq n top both depth i (suc k) parent s' e b,
          write_all-append top l.writes (r.writes ++ last) rows,
          write_all-append top r.writes last below_left,
          same,
        )
        refl

  descend_eq :
      (h : Hashes) (rows : Rows) (flags : List ℕ) (hashes : List (List ℕ))
      → IsShaped n top rows
      → i < width n (suc k)
      → descend h go (at n top rows depth i) flags hashes
        ≡ (do w ← walk_children h n k walk i flags hashes; filled n top rows depth i w)
  unfolding descend
  descend_eq h rows flags hashes s b =
      rw (left_eq n top rows depth i k e, below rows (i * 2) flags hashes s (omega arith))
        (bind_agree (walk (i * 2) flags hashes) _ _ _ _ (λ l.
          let rows' = write_all top l.writes rows in
          let s' : IsShaped n top rows' = write_all-IsShaped n top l.writes rows s in
          let exists = ltb (i * 2 + 1) (width n k) in
          rw
            (
              up_left n top rows' depth i,
              right_exists_eq n top rows' depth i k s' e,
              go_right_eq rows' l exists s' refl,
            )
            (bind_agree (walk_right walk i l exists) _ _ _ _ (λ r. joined_eq h rows l r s b))))

pub traverse_eq :
    (h : Hashes) (n top k depth i : ℕ) (rows : Rows) (flags : List ℕ) (hashes : List (List ℕ))
    → IsShaped n top rows
    → depth + k ≡ top
    → i < width n k
    → traverse h (suc k) (at n top rows depth i) flags hashes
      ≡ (do w ← walk h n k i flags hashes; filled n top rows depth i w)
unfolding traverse walk
traverse_eq h n top zero depth i rows [] hashes s e b = refl
traverse_eq h n top zero depth i rows (flag ∷ flags) hashes s e b =
    rw (is_leaf-bottom n top rows depth i (omega arith))
      (use_hash_eq n top 0 depth i rows flags hashes s e b)
traverse_eq h n top (suc k) depth i rows [] hashes s e b = refl
traverse_eq h n top (suc k) depth i rows (flag ∷ flags) hashes s e b =
    elim (Bool-cases (flag == 0)) [
      | inl stop ↦
          rw (is_leaf-inner n top rows depth i k e, stop)
            (use_hash_eq n top (suc k) depth i rows flags hashes s e b)
      | inr more ↦
          rw (is_leaf-inner n top rows depth i k e, more)
            (descend_eq n top k depth i e (traverse h (suc k)) (walk h n k)
              (λ rows' j fs hs s' b'.
                traverse_eq h n top k (depth + 1) j rows' fs hs s' (omega arith) b')
              h rows flags hashes s b)
    ]
