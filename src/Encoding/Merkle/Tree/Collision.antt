-- ===== src/Encoding/Merkle/Tree/Collision.antt =====
-- The hashes of the nodes of a block, and children of one that have its hash and are not its own.
use go_bitcoin.Base.{ℕ, zero, suc, ◌+◌, ◌*◌, ◌≤◌, ◌<◌, true, false, List, ◌++◌, ltb}
use go_bitcoin.Base.{if◌then◌else◌, length, All}
use go_bitcoin.Base.{◌⊎◌, inl, inr}
use go_bitcoin.Base.{◌≡◌}
use go_bitcoin.Encoding.Hash.{Hashes, hash256}
use go_bitcoin.Encoding.Merkle.{merkle_parent}
use go_bitcoin.Encoding.Merkle.Tree.Rows.{width}
use go_bitcoin.Encoding.Merkle.Tree.Kept.{
  Below, Untouched, Holds, Holds-append_left, Holds-append_right, ArePlaces, Holds-Below,
}
use go_bitcoin.Encoding.Merkle.Tree.Walk.{Write}

abbrev pub Is32 : List ℕ → Type 0
Is32 x = length x ≡ 32

module _ (h : Hashes) (n : ℕ) (leaf : ℕ → List ℕ) where
  -- The hash of the block's node at a height and an index, where `leaf i` is the hash of transaction i of `n`
  unfoldable pub node_hash : ℕ → ℕ → List ℕ
  node_hash zero i = leaf i
  node_hash (suc k) i =
      let l = node_hash k (i * 2) in
      let r = node_hash k (i * 2 + 1) in
      merkle_parent h l (if ltb (i * 2 + 1) (width n k) then r else l)

  abbrev pub right_hash : ℕ → ℕ → List ℕ
  right_hash k i =
      if ltb (i * 2 + 1) (width n k) then node_hash k (i * 2 + 1) else node_hash k (i * 2)

  -- Two children were written, right below a node of the block, that are not the node's own and have its hash.
  pub record Collided (top : ℕ) (ws : List Write) : Type 0 where
    pub height : ℕ
    pub index : ℕ
    pub left : List ℕ
    pub right : List ℕ
    pub below_top : height < top
    pub left_32 : Is32 left
    pub right_32 : Is32 right
    pub left_held : Holds height (index * 2) left ws
    pub right_held :
        ((ltb (index * 2 + 1) (width n height) ≡ true) × Holds height (index * 2 + 1) right ws)
        ⊎ ((ltb (index * 2 + 1) (width n height) ≡ false) × (right ≡ left))
    pub differs : left ++ right ≡ node_hash height (index * 2) ++ right_hash height index → ⊥
    pub same_hash : hash256 h (left ++ right) ≡ node_hash (suc height) index

  pub Collided-append_left :
      (top k a : ℕ) (ws vs : List Write)
      → ArePlaces n k a ws
      → ((l j : ℕ) → Below k a l j → Untouched l j vs)
      → Collided top ws
      → Collided top (ws ++ vs)
  Collided-append_left top k a ws vs places free c =
      let keep : (j : ℕ) (x : List ℕ) → Holds c.height j x ws → Holds c.height j x (ws ++ vs) =
        λ j x held.
          Holds-append_left c.height j x ws vs held
            (free c.height j (Holds-Below n k a c.height j x ws places held).0) in
      record {
        height = c.height;
        index = c.index;
        left = c.left;
        right = c.right;
        below_top = c.below_top;
        left_32 = c.left_32;
        right_32 = c.right_32;
        left_held = keep (c.index * 2) c.left c.left_held;
        right_held = elim c.right_held [
          | inl (there, held) ↦ inl (there, keep (c.index * 2 + 1) c.right held)
          | inr twice ↦ inr twice
        ];
        differs = c.differs;
        same_hash = c.same_hash;
      }

  pub Collided-append_right :
      (top : ℕ) (ws vs : List Write) → Collided top vs → Collided top (ws ++ vs)
  Collided-append_right top ws vs c = record {
    height = c.height;
    index = c.index;
    left = c.left;
    right = c.right;
    below_top = c.below_top;
    left_32 = c.left_32;
    right_32 = c.right_32;
    left_held = Holds-append_right c.height (c.index * 2) c.left ws vs c.left_held;
    right_held = elim c.right_held [
      | inl (there, held) ↦
          inl (there, Holds-append_right c.height (c.index * 2 + 1) c.right ws vs held)
      | inr twice ↦ inr twice
    ];
    differs = c.differs;
    same_hash = c.same_hash;
  }

  abbrev pub IsRight : ℕ → Write → Type 0
  IsRight top w = (w.height ≤ top) × (w.value ≡ node_hash w.height w.index)

  abbrev pub AreRight : ℕ → List Write → Type 0
  AreRight top ws = All (IsRight top) ws
