-- ===== src/Encoding/Merkle/Levels.antt =====
-- The levels of a merkle tree: their lengths, and what a repeated last hash does.
use go_bitcoin.Base.{ℕ, zero, suc, ◌+◌, ◌*◌, ◌%◌, ◌≤◌, ◌<◌, List, [], ◌∷◌, ◌++◌, ltb, ◌==◌}
use go_bitcoin.Base.{length, length-append, Bool-cases, ◌⊎◌, inl, inr, true, false, lt→ltb}
use go_bitcoin.Base.{◌/◌, bind_ok_inversion, ok, ◌≡◌, refl, sym, ◌∙◌, arith}
use go_bitcoin.Encoding.Hash.{Hashes}
use go_bitcoin.Encoding.Merkle.{last_hash, first_hash, merkle_parent, pair_up, merkle_parent_level}
use go_bitcoin.Encoding.Merkle.{merkle_loop, merkle_root}

last_hash-ok : (x : List ℕ) (xs : List (List ℕ)) → (last : List ℕ) × (last_hash (x ∷ xs) ≡ ok last)
unfolding last_hash
last_hash-ok x [] = (x, refl)
last_hash-ok x (y ∷ ys) = last_hash-ok y ys

is_zero : (n : ℕ) → n ≡ 0 → (n == 0) ≡ true
is_zero n e = ground arith

is_one : (n : ℕ) → n ≡ 1 → (n == 0) ≡ false
is_one n e = ground arith

parity : (n : ℕ) → (n % 2 ≡ 0) ⊎ (n % 2 ≡ 1)
parity n = elim (Bool-cases (n % 2 == 0)) [
  | inl even ↦ inl (ground arith)
  | inr odd ↦ inr (ground arith)
]

module _ (h : Hashes) where
  pair_up-ok :
      (n : ℕ) (hashes : List (List ℕ))
      → length hashes ≡ 2 * n
      → (level : List (List ℕ)) × (pair_up h hashes ≡ ok level) × (length level ≡ n)
  unfolding pair_up
  pair_up-ok n [] e = ([], refl, omega arith)
  pair_up-ok n (x ∷ []) e = absurd (omega arith)
  pair_up-ok zero (x ∷ y ∷ xs) e = absurd (omega arith)
  pair_up-ok (suc n) (x ∷ y ∷ xs) e =
      let (level, paired, len) = pair_up-ok n xs (omega arith) in
      (merkle_parent h x y ∷ level, rw paired refl, omega arith)

  pub level_even :
      (hashes : List (List ℕ))
      → length hashes % 2 ≡ 0
      → merkle_parent_level h hashes ≡ pair_up h hashes
  unfolding merkle_parent_level
  level_even hashes even = rw (is_zero (length hashes % 2) even)

  pub level_odd :
      (hashes : List (List ℕ)) (last : List ℕ)
      → length hashes % 2 ≡ 1
      → last_hash hashes ≡ ok last
      → merkle_parent_level h hashes ≡ pair_up h (hashes ++ (last ∷ []))
  unfolding merkle_parent_level
  level_odd hashes last odd is_last = rw (is_one (length hashes % 2) odd, is_last)

  -- A level of n hashes has a level of n / 2 hashes above it, rounded up.
  merkle_parent_level-ok :
      (x : List ℕ) (xs : List (List ℕ))
      → (level : List (List ℕ)) × (merkle_parent_level h (x ∷ xs) ≡ ok level)
        × (2 * length level ≡ length (x ∷ xs) + length (x ∷ xs) % 2)
  merkle_parent_level-ok x xs = elim (parity (length (x ∷ xs))) [
    | inl even ↦
        let (level, paired, len) = pair_up-ok (length (x ∷ xs) / 2) (x ∷ xs) (omega arith) in
        (level, level_even (x ∷ xs) even ∙ paired, omega arith)
    | inr odd ↦
        let (last, is_last) = last_hash-ok x xs in
        let longer = (x ∷ xs) ++ (last ∷ []) in
        let len_longer : length longer ≡ length (x ∷ xs) + 1 = length-append (x ∷ xs) (last ∷ []) in
        let (level, paired, len) = pair_up-ok ((length (x ∷ xs) + 1) / 2) longer (omega arith) in
        (level, level_odd (x ∷ xs) last odd is_last ∙ paired, omega arith)
  ]

  merkle_loop-ok :
      (fuel : ℕ) (hashes : List (List ℕ))
      → 0 < length hashes
      → length hashes ≤ fuel
      → (root : List ℕ) × (merkle_loop h fuel hashes ≡ ok root)
  unfolding merkle_loop first_hash
  merkle_loop-ok zero hashes some e = absurd (omega arith)
  merkle_loop-ok (suc fuel) [] some e = absurd (omega arith)
  merkle_loop-ok (suc fuel) (x ∷ []) some e = (x, refl)
  merkle_loop-ok (suc fuel) (x ∷ y ∷ ys) some e =
      let (level, above, len) = merkle_parent_level-ok x (y ∷ ys) in
      let (root, climbed) = merkle_loop-ok fuel level (omega arith) (omega arith) in
      (root, rw (lt→ltb 1 (length (x ∷ y ∷ ys)) (omega arith), above) climbed)

  -- MerkleRoot of any list of hashes returns: it neither reads outside a level nor goes on for ever.
  pub merkle_root_total :
      (hashes : List (List ℕ)) → (root : List ℕ) × (merkle_root h hashes ≡ ok root)
  unfolding merkle_root
  merkle_root_total [] = ([], refl)
  merkle_root_total (x ∷ xs) = merkle_loop-ok (length (x ∷ xs)) (x ∷ xs) (omega arith) (omega arith)

  pub merkle_loop-more_fuel :
      (f g : ℕ) (hashes : List (List ℕ)) (root : List ℕ)
      → f ≤ g
      → merkle_loop h f hashes ≡ ok root
      → merkle_loop h g hashes ≡ ok root
  unfolding merkle_loop
  merkle_loop-more_fuel zero g hashes root le e = cc
  merkle_loop-more_fuel (suc f) zero hashes root le e = absurd (omega arith)
  merkle_loop-more_fuel (suc f) (suc g) hashes root le e =
      elim (Bool-cases (ltb 1 (length hashes))) [
        | inl more ↦
            let (level, above, climbed) =
              bind_ok_inversion (merkle_parent_level h hashes) _ (rw more at e) in
            rw (more, above) (merkle_loop-more_fuel f g level root (omega arith) climbed)
        | inr done ↦ rw done (rw done at e)
      ]

  root_above :
      (x y : List ℕ) (xs level : List (List ℕ))
      → merkle_parent_level h (x ∷ y ∷ xs) ≡ ok level
      → merkle_root h (x ∷ y ∷ xs) ≡ merkle_loop h (length (y ∷ xs)) level
  unfolding merkle_root merkle_loop
  root_above x y xs level above = rw (lt→ltb 1 (length (x ∷ y ∷ xs)) (omega arith), above)

  -- On an odd number of hashes, three or more, MerkleRoot gives what it gives on these with the last one
  -- repeated: the root does not tell the two lists apart.
  pub merkle_root_repeated_last :
      (x y : List ℕ) (xs : List (List ℕ)) (last : List ℕ)
      → length (x ∷ y ∷ xs) % 2 ≡ 1
      → last_hash (x ∷ y ∷ xs) ≡ ok last
      → merkle_root h ((x ∷ y ∷ xs) ++ (last ∷ [])) ≡ merkle_root h (x ∷ y ∷ xs)
  merkle_root_repeated_last x y xs last odd is_last =
      let hashes : List (List ℕ) = x ∷ y ∷ xs in
      let longer : List (List ℕ) = hashes ++ (last ∷ []) in
      let len_longer : length longer ≡ length hashes + 1 = length-append hashes (last ∷ []) in
      let (level, above, len) = merkle_parent_level-ok x (y ∷ xs) in
      let (root, climbed) = merkle_loop-ok (length (y ∷ xs)) level (omega arith) (omega arith) in
      let climbed' =
        merkle_loop-more_fuel (length (y ∷ xs)) (length (y ∷ (xs ++ (last ∷ [])))) level root
          (omega arith) climbed in
      let same : merkle_parent_level h longer ≡ ok level =
        level_even longer (omega arith) ∙ sym (level_odd hashes last odd is_last) ∙ above in
      root_above x y (xs ++ (last ∷ [])) level same
      ∙ climbed'
      ∙ sym (root_above x y xs level above ∙ climbed)
