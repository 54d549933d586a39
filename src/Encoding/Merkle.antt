-- ===== src/Encoding/Merkle.antt =====
-- MerkleParent, MerkleParentLevel and MerkleRoot of internal/encoding/merkle.go.
pub mod Levels
pub mod Perfect
pub mod Tree
use go_bitcoin.Base.{ℕ, zero, suc, ◌+◌, ◌%◌, List, [], ◌∷◌, ◌++◌, ltb, ◌==◌, if◌then◌else◌, length}
use go_bitcoin.Base.{Result, ok, panic, out_of_fuel, ◌>>=◌}
use go_bitcoin.Encoding.Hash.{Hashes, hash256}

-- hashes[len(hashes)-1]
unfoldable pub last_hash : List (List ℕ) → Result (List ℕ)
last_hash [] = panic
last_hash (x ∷ []) = ok x
last_hash (x ∷ y ∷ xs) = last_hash (y ∷ xs)

-- currentHashes[0]
unfoldable pub first_hash : List (List ℕ) → Result (List ℕ)
first_hash [] = panic
first_hash (x ∷ xs) = ok x

module _ (h : Hashes) where
  unfoldable pub merkle_parent : List ℕ → List ℕ → List ℕ
  merkle_parent l r = hash256 h (l ++ r)

  -- The loop in steps of two, which reads hashes[i] and hashes[i+1].
  unfoldable pub pair_up : List (List ℕ) → Result (List (List ℕ))
  unfolding merkle_parent
  pair_up [] = ok []
  pair_up (x ∷ []) = panic
  pair_up (x ∷ y ∷ xs) = do more ← pair_up xs; ok (merkle_parent x y ∷ more)

  unfoldable pub merkle_parent_level : List (List ℕ) → Result (List (List ℕ))
  unfolding pair_up last_hash
  merkle_parent_level hashes =
      if length hashes % 2 == 0
      then pair_up hashes
      else (do last ← last_hash hashes; pair_up (hashes ++ (last ∷ [])))

  unfoldable pub merkle_loop : ℕ → List (List ℕ) → Result (List ℕ)
  unfolding merkle_parent_level first_hash
  merkle_loop zero hashes = out_of_fuel
  merkle_loop (suc fuel) hashes =
      if ltb 1 (length hashes)
      then (do level ← merkle_parent_level hashes; merkle_loop fuel level)
      else first_hash hashes

  -- A level is shorter than the one below it, so as many rounds as there are hashes are enough.
  unfoldable pub merkle_root : List (List ℕ) → Result (List ℕ)
  unfolding merkle_loop
  merkle_root [] = ok []
  merkle_root (x ∷ xs) = merkle_loop (length (x ∷ xs)) (x ∷ xs)
