-- ===== src/Encoding/Merkle/Tree/Sound.antt =====
-- What a walk with the right hash wrote: the block's own hashes, or children that collide with them.
use go_bitcoin.Base.{
  ℕ, zero, suc, ◌+◌, ◌*◌, ◌≤◌, ◌<◌, Bool, true, false, List, [], ◌∷◌, ◌++◌, ltb, ◌==◌,
}
use go_bitcoin.Base.{Bool-cases, length, take, drop, take-append, drop-append, All}
use go_bitcoin.Base.{All-append, ◌⊎◌, inl, inr, bytes_equal, bytes_equal_self}
use go_bitcoin.Base.{bytes_equal→eq, Ensures, Ensures-bind}
use go_bitcoin.Base.{Result, ok, err, panic, out_of_fuel, ◌≡◌, refl, ltb→lt, sym, ap, ◌∙◌, arith}
use go_bitcoin.Encoding.Hash.{Hashes, hash256}
use go_bitcoin.Encoding.Merkle.{merkle_parent}
use go_bitcoin.Encoding.Merkle.Tree.Rows.{width}
use go_bitcoin.Encoding.Merkle.Tree.Kept.{
  Below, Below-self, Below-le, Untouched, Holds, Holds-append_left, Holds-append_right, IsPlace,
  ArePlaces, ArePlaces-suc, apart,
}
use go_bitcoin.Encoding.Merkle.Tree.Walk.{Write, Walk, Walked, walk, walk_hash, walk_right, joined}
use go_bitcoin.Encoding.Merkle.Tree.Collision.{
  Is32, node_hash, right_hash, IsRight, AreRight, Collided, Collided-append_left,
  Collided-append_right,
}

Ensures-map {ℓ κ μ} :
    {A : Type ℓ} (P : A → Type κ) (Q : A → Type μ)
    → ((a : A) → P a → Q a)
    → (m : Result A) → Ensures P m
    → Ensures Q m
Ensures-map P Q f (ok a) e = f a e
Ensures-map P Q f (err x) e = tt
Ensures-map P Q f panic e = tt
Ensures-map P Q f out_of_fuel e = tt

module _ (h : Hashes) (n : ℕ) (leaf : ℕ → List ℕ) where
  append_parts : (a b c d : List ℕ) → Is32 a → Is32 c → a ++ b ≡ c ++ d → (a ≡ c) × (b ≡ d)
  append_parts a b c d la lc e =
      let heads : take (length a) (a ++ b) ≡ take (length c) (c ++ d) =
        rw e (ap (λ k. take k (c ++ d)) (la ∙ sym lc)) in
      let tails : drop (length a) (a ++ b) ≡ drop (length c) (c ++ d) =
        rw e (ap (λ k. drop k (c ++ d)) (la ∙ sym lc)) in
      (
        sym (take-append a b) ∙ heads ∙ take-append c d,
        sym (drop-append a b) ∙ tails ∙ drop-append c d,
      )

  length-merkle_parent : (l r : List ℕ) → Is32 (merkle_parent h l r)
  unfolding merkle_parent hash256
  length-merkle_parent l r = h.length-sha256 (h.sha256 (l ++ r))

  length-node_hash : ((i : ℕ) → Is32 (leaf i)) → (k i : ℕ) → Is32 (node_hash h n leaf k i)
  unfolding node_hash
  length-node_hash sized zero i = sized i
  length-node_hash sized (suc k) i =
      length-merkle_parent (node_hash h n leaf k (i * 2)) (right_hash h n leaf k i)

  -- A node that has the hash it should have was made of right hashes, or of children that collide.
  abbrev pub Judged : ℕ → List ℕ → Walked → Type 0
  Judged top right_node w =
      w.node ≡ right_node → AreRight h n leaf top w.writes ⊎ Collided h n leaf top w.writes

  abbrev pub Sound : ℕ → ℕ → ℕ → Walked → Type 0
  Sound top k i w =
      Is32 w.node
      × All Is32 w.hashes_left
      × ArePlaces n k i w.writes
      × Holds k i w.node w.writes
      × Judged top (node_hash h n leaf k i) w

  walk_hash-Sound :
      (top k i : ℕ) (flags : List ℕ) (hashes : List (List ℕ))
      → k ≤ top
      → i < width n k
      → All Is32 hashes
      → Ensures (Sound top k i) (walk_hash k i flags hashes)
  walk_hash-Sound top k i flags [] below inside a = tt
  walk_hash-Sound top k i flags (x ∷ hashes) below inside (a, b) =
      (a, b, ((Below-self k i, inside), tt), inl (refl, refl, refl, tt), λ e. inl ((below, e), tt))

  abbrev last_write : ℕ → ℕ → List ℕ → List Write
  last_write k i parent = record { height = suc k; index = i; value = parent } ∷ []

  last_write-Untouched :
      (k i a x j : ℕ) (parent : List ℕ) → Below k a x j → Untouched x j (last_write k i parent)
  last_write-Untouched k i a x j parent below =
      let low : x ≤ k = Below-le k a x j below in ((λ p q. omega arith), tt)

  -- What a node needs of its right child, which was walked, or for which the left hash stands
  record RightSound (top k i : ℕ) (l r : Walked) : Type 0 where
    pub node_32 : Is32 r.node
    pub left_over : All Is32 r.hashes_left
    pub places : ArePlaces n (suc k) i r.writes
    pub apart_from : (x j : ℕ) → Below k (i * 2) x j → Untouched x j r.writes
    pub held :
        ((ltb (i * 2 + 1) (width n k) ≡ true) × Holds k (i * 2 + 1) r.node r.writes)
        ⊎ ((ltb (i * 2 + 1) (width n k) ≡ false) × (r.node ≡ l.node))
    pub collided :
        (parent : List ℕ)
        → Collided h n leaf top r.writes
        → Collided h n leaf top (r.writes ++ last_write k i parent)
    pub judged : Judged top (right_hash h n leaf k i) r

  walked-RightSound :
      (top k i : ℕ) (l r : Walked)
      → ltb (i * 2 + 1) (width n k) ≡ true
      → Sound top k (i * 2 + 1) r
      → RightSound top k i l r
  walked-RightSound top k i l r there (r32, left, places, held, judged) = record {
    node_32 = r32;
    left_over = left;
    places = ArePlaces-suc n k (i * 2 + 1) i r.writes (omega arith) places;
    apart_from =
        λ x j below. apart n k (i * 2) (i * 2 + 1) x j r.writes (λ e. omega arith) below places;
    held = inl (there, held);
    collided = λ parent c.
        Collided-append_left h n leaf top k (i * 2 + 1) r.writes (last_write k i parent) places
          (λ x j below. last_write-Untouched k i (i * 2 + 1) x j parent below) c;
    judged = λ e. judged (rw there at e);
  }

  absent-RightSound :
      (top k i : ℕ) (l : Walked)
      → ltb (i * 2 + 1) (width n k) ≡ false
      → Is32 l.node
      → All Is32 l.hashes_left
      → RightSound top k i l (record l { writes = [] })
  absent-RightSound top k i l none l32 left = record {
    node_32 = l32;
    left_over = left;
    places = tt;
    apart_from = λ x j below. tt;
    held = inr (none, refl);
    collided = λ parent c. absurd c.left_held;
    judged = λ e. inl tt;
  }

  module _ (top k i : ℕ) (l r : Walked) (below : suc k ≤ top) (l_sound : Sound top k (i * 2) l)
      (right : RightSound top k i l r) where
    abbrev parent : List ℕ
    parent = merkle_parent h l.node r.node

    abbrev rest : List Write
    rest = r.writes ++ last_write k i parent

    rest-Untouched : (x j : ℕ) → Below k (i * 2) x j → Untouched x j rest
    rest-Untouched x j under =
        All-append (λ (w : Write). w.height ≡ x → w.index ≡ j → ⊥) r.writes (last_write k i parent)
          (right.apart_from x j under) (last_write-Untouched k i (i * 2) x j parent under)

    both :
        AreRight h n leaf top l.writes ⊎ Collided h n leaf top l.writes
        → AreRight h n leaf top r.writes ⊎ Collided h n leaf top r.writes
        → parent ≡ node_hash h n leaf (suc k) i
        → AreRight h n leaf top (l.writes ++ rest) ⊎ Collided h n leaf top (l.writes ++ rest)
    both (inr bad) q e =
        inr (Collided-append_left h n leaf top k (i * 2) l.writes rest l_sound.2 rest-Untouched bad)
    both (inl p) (inr bad) e =
        inr (Collided-append_right h n leaf top l.writes rest (right.collided parent bad))
    both (inl p) (inl q) e = inl (
        All-append (IsRight h n leaf top) l.writes rest p
          (All-append (IsRight h n leaf top) r.writes (last_write k i parent) q ((below, e), tt)))

    right_kept :
        ((ltb (i * 2 + 1) (width n k) ≡ true) × Holds k (i * 2 + 1) r.node (l.writes ++ rest))
        ⊎ ((ltb (i * 2 + 1) (width n k) ≡ false) × (r.node ≡ l.node))
    right_kept = elim right.held [
      | inl (there, held) ↦
          let kept : Holds k (i * 2 + 1) r.node rest =
            Holds-append_left k (i * 2 + 1) r.node r.writes (last_write k i parent) held (
              last_write-Untouched k i (i * 2 + 1) k (i * 2 + 1) parent
                (Below-self k (i * 2 + 1))) in
          inl (there, Holds-append_right k (i * 2 + 1) r.node l.writes rest kept)
      | inr twice ↦ inr twice
    ]

    parent-Judged :
        ((j : ℕ) → Is32 (leaf j)) → Judged top (node_hash h n leaf (suc k) i) (joined h k i l r)
    unfolding node_hash merkle_parent
    parent-Judged sized e =
        let true_bytes = node_hash h n leaf k (i * 2) ++ right_hash h n leaf k i in
        elim (Bool-cases (bytes_equal (l.node ++ r.node) true_bytes)) [
          | inl same ↦
              let (left_same, right_same) =
                append_parts l.node r.node (node_hash h n leaf k (i * 2)) (right_hash h n leaf k i)
                  l_sound.0 (length-node_hash sized k (i * 2))
                  (bytes_equal→eq (l.node ++ r.node) true_bytes same) in
              both (l_sound.4 left_same) (right.judged right_same) e
          | inr other ↦ inr (record {
            height = k;
            index = i;
            left = l.node;
            right = r.node;
            below_top = omega arith;
            left_32 = l_sound.0;
            right_32 = right.node_32;
            left_held =
                Holds-append_left k (i * 2) l.node l.writes rest l_sound.3
                  (rest-Untouched k (i * 2) (Below-self k (i * 2)));
            right_held = right_kept;
            differs = λ eq. cc (bytes_equal_self (l.node ++ r.node));
            same_hash = e;
          })
        ]

    parent-Sound :
        i < width n (suc k) → ((j : ℕ) → Is32 (leaf j)) → Sound top (suc k) i (joined h k i l r)
    parent-Sound inside sized = (
      length-merkle_parent l.node r.node,
      right.left_over,
      All-append (IsPlace n (suc k) i) l.writes rest
          (ArePlaces-suc n k (i * 2) i l.writes (omega arith) l_sound.2)
          (All-append (IsPlace n (suc k) i) r.writes (last_write k i parent) right.places
            ((Below-self (suc k) i, inside), tt)),
      Holds-append_right (suc k) i parent l.writes rest (
          Holds-append_right (suc k) i parent r.writes (last_write k i parent)
            (inl (refl, refl, refl, tt))),
      parent-Judged sized,
    )

  walk_right-Sound :
      (top k i : ℕ) (go : Walk) (l : Walked) (exists : Bool)
      → ltb (i * 2 + 1) (width n k) ≡ exists
      → ((j : ℕ) (flags : List ℕ) (hashes : List (List ℕ))
          → j < width n k
          → All Is32 hashes
          → Ensures (Sound top k j) (go j flags hashes))
      → Sound top k (i * 2) l
      → Ensures (RightSound top k i l) (walk_right go i l exists)
  walk_right-Sound top k i go l true e below (l32, left, places, held, judged) =
      Ensures-map (Sound top k (i * 2 + 1)) (RightSound top k i l)
        (λ r sound. walked-RightSound top k i l r e sound)
        (go (i * 2 + 1) l.flags_left l.hashes_left)
        (below (i * 2 + 1) l.flags_left l.hashes_left (ltb→lt (i * 2 + 1) (width n k) e) left)
  walk_right-Sound top k i go l false e below (l32, left, places, held, judged) =
      absent-RightSound top k i l e l32 left

  pub walk-Sound :
      (top k i : ℕ) (flags : List ℕ) (hashes : List (List ℕ))
      → k ≤ top
      → i < width n k
      → ((j : ℕ) → Is32 (leaf j))
      → All Is32 hashes
      → Ensures (Sound top k i) (walk h n k i flags hashes)
  unfolding walk
  walk-Sound top zero i [] hashes below inside sized a = tt
  walk-Sound top zero i (flag ∷ flags) hashes below inside sized a =
      walk_hash-Sound top 0 i flags hashes below inside a
  walk-Sound top (suc k) i [] hashes below inside sized a = tt
  walk-Sound top (suc k) i (flag ∷ flags) hashes below inside sized a =
      elim (Bool-cases (flag == 0)) [
        | inl stop ↦ rw stop (walk_hash-Sound top (suc k) i flags hashes below inside a)
        | inr more ↦
            let go : (j : ℕ) (fs : List ℕ) (hs : List (List ℕ))
                → j < width n k
                → All Is32 hs
                → Ensures (Sound top k j) (walk h n k j fs hs) =
              λ j fs hs inside'. walk-Sound top k j fs hs (omega arith) inside' sized in
            rw more (
              Ensures-bind (Sound top k (i * 2)) (Sound top (suc k) i)
                (walk h n k (i * 2) flags hashes) _ (go (i * 2) flags hashes (omega arith) a)
                (λ l l_sound.
                  Ensures-bind (RightSound top k i l) (Sound top (suc k) i)
                    (walk_right (walk h n k) i l (ltb (i * 2 + 1) (width n k))) _
                    (walk_right-Sound top k i (walk h n k) l (ltb (i * 2 + 1) (width n k)) refl go
                      l_sound)
                    (λ r r_sound. parent-Sound top k i l r below l_sound r_sound inside sized)))
      ]
