-- ===== src/Encoding/Merkle/Tree/Complete.antt =====
-- The proofs that a full node makes of a block, and that PopulateTree takes them.
use go_bitcoin.Base.{
  ℕ, zero, suc, ◌+◌, ◌*◌, ◌<◌, Bool, true, false, List, [], ◌∷◌, ◌++◌, ltb, append-nil,
}
use go_bitcoin.Base.{
  if◌then◌else◌, Bool-cases, inl, inr, append_assoc, ok, ◌>>=◌, ◌≡◌, refl, sym, ap, ◌∙◌, arith,
}
use go_bitcoin.Base.{subst}
use go_bitcoin.Encoding.Hash.{Hashes}
use go_bitcoin.Encoding.Merkle.{merkle_root}
use go_bitcoin.Encoding.Merkle.Tree.{
  MerkleTree, new_empty_merkle_tree, populate_tree, root, nil_rows,
}
use go_bitcoin.Encoding.Merkle.Tree.Rows.{width, width-halvings, nil_rows-IsShaped, at}
use go_bitcoin.Encoding.Merkle.Tree.Walk.{Write, Walk, Walked, walk, walk_right, write_all}
use go_bitcoin.Encoding.Merkle.Tree.Populate.{depth_of, new_empty_merkle_tree_eq, populate_tree_eq}
use go_bitcoin.Encoding.Merkle.Tree.Collision.{node_hash}
use go_bitcoin.Encoding.Merkle.Tree.Places.{walk-EndsAt, root-write_all}
use go_bitcoin.Encoding.Merkle.Tree.Roots.{values_from, merkle_root-node_hash}
use go_bitcoin.Base.{Ensures}

module _ (h : Hashes) (n : ℕ) (leaf : ℕ → List ℕ) (opened : ℕ → ℕ → Bool) where
  -- The flags of a node: 1 where it is opened, which at a leaf means that its transaction is one of those asked for.
  -- Below an opened node come those of its children.
  unfoldable pub proof_flags : ℕ → ℕ → List ℕ
  proof_flags zero i = (if opened 0 i then 1 else 0) ∷ []
  proof_flags (suc k) i =
      let l = proof_flags k (i * 2) in
      let r = proof_flags k (i * 2 + 1) in
      if opened (suc k) i
      then 1 ∷ (l ++ (if ltb (i * 2 + 1) (width n k) then r else []))
      else 0 ∷ []

  -- The hashes of the nodes that are not opened, and of the leaves
  unfoldable pub proof_hashes : ℕ → ℕ → List (List ℕ)
  unfolding node_hash
  proof_hashes zero i = leaf i ∷ []
  proof_hashes (suc k) i =
      let l = proof_hashes k (i * 2) in
      let r = proof_hashes k (i * 2 + 1) in
      if opened (suc k) i
      then l ++ (if ltb (i * 2 + 1) (width n k) then r else [])
      else node_hash h n leaf (suc k) i ∷ []

  -- The walk over a node's part of the proof takes that part and gives the hash of the node.
  abbrev Reads : Walk → ℕ → ℕ → Type 0
  Reads go k i =
      (flags : List ℕ) (hashes : List (List ℕ))
      → (ws : List Write) × (go i (proof_flags k i ++ flags) (proof_hashes k i ++ hashes)
          ≡ ok (record {
            flags_left = flags;
            hashes_left = hashes;
            node = node_hash h n leaf k i;
            writes = ws;
          }))

  right_part :
      (k i : ℕ) (l : Walked) (flags : List ℕ) (hashes : List (List ℕ)) (exists : Bool)
      → Reads (walk h n k) k (i * 2 + 1)
      → l.flags_left ≡ (if exists then proof_flags k (i * 2 + 1) else []) ++ flags
      → l.hashes_left ≡ (if exists then proof_hashes k (i * 2 + 1) else []) ++ hashes
      → l.node ≡ node_hash h n leaf k (i * 2)
      → (ws : List Write) × (walk_right (walk h n k) i l exists
          ≡ ok (record {
            flags_left = flags;
            hashes_left = hashes;
            node =
                if exists then node_hash h n leaf k (i * 2 + 1) else node_hash h n leaf k (i * 2);
            writes = ws;
          }))
  right_part k i l flags hashes true reads ef eh en =
      let (ws, e) = reads flags hashes in (ws, rw (ef, eh) e)
  right_part k i l flags hashes false reads ef eh en = ([], rw (ef, eh, en) refl)

  walk-Reads : (k i : ℕ) → Reads (walk h n k) k i
  unfolding walk proof_flags proof_hashes node_hash
  walk-Reads zero i flags hashes = (record { height = 0; index = i; value = leaf i } ∷ [], refl)
  walk-Reads (suc k) i flags hashes = elim (Bool-cases (opened (suc k) i)) [
    | inr shut ↦ (
      record { height = suc k; index = i; value = node_hash h n leaf (suc k) i } ∷ [],
      rw shut refl,
    )
    | inl open_node ↦
        let exists = ltb (i * 2 + 1) (width n k) in
        let (lws, le) =
          walk-Reads k (i * 2) ((if exists then proof_flags k (i * 2 + 1) else []) ++ flags)
            ((if exists then proof_hashes k (i * 2 + 1) else []) ++ hashes) in
        let (rws, re) =
          right_part k i
            (record {
              flags_left = (if exists then proof_flags k (i * 2 + 1) else []) ++ flags;
              hashes_left = (if exists then proof_hashes k (i * 2 + 1) else []) ++ hashes;
              node = node_hash h n leaf k (i * 2);
              writes = lws;
            })
            flags hashes exists (walk-Reads k (i * 2 + 1)) refl refl refl in
        (
          lws
              ++ (rws
                  ++ (record { height = suc k; index = i; value = node_hash h n leaf (suc k) i }
                      ∷ [])),
          rw (open_node, append_assoc, append_assoc, le, re) refl,
        )
  ]

  -- For any choice of the nodes to open, the flags and hashes of a block's proof, with any flags behind them, fill
  -- an empty tree for the block's transactions, one at least, and its root is MerkleRoot of their hashes.
  pub populate_tree_complete :
      (padding : List ℕ)
      → 0 < n
      → (mt : MerkleTree) × ((do
        empty ← new_empty_merkle_tree n
        populate_tree h (proof_flags (depth_of n) 0 ++ padding) (proof_hashes (depth_of n) 0) empty)
          ≡ ok mt)
        × (root mt ≡ merkle_root h (values_from leaf 0 n))
  populate_tree_complete padding p =
      let top = depth_of n in
      let flags = proof_flags top 0 in
      let hashes = proof_hashes top 0 in
      let (ws, e) = walk-Reads top 0 padding [] in
      let w : Walked = record {
        flags_left = padding;
        hashes_left = [];
        node = node_hash h n leaf top 0;
        writes = ws;
      } in
      let walked : walk h n top 0 (flags ++ padding) hashes ≡ ok w =
        ap (walk h n top 0 (flags ++ padding)) (sym (append-nil hashes)) ∙ e in
      let ends = subst (Ensures _) walked (walk-EndsAt h n top 0 (flags ++ padding) hashes) in
      (
        at n top (write_all top ws (nil_rows n top)) 0 0,
        rw (new_empty_merkle_tree_eq n p, populate_tree_eq h n (flags ++ padding) hashes p, walked)
            refl,
        root-write_all n top (nil_rows n top) w (nil_rows-IsShaped n top)
              (width-halvings n n p (omega arith)) ends
            ∙ sym (merkle_root-node_hash h n leaf p),
      )
