-- ===== src/Block/Checks.antt =====
-- The tests on a block of internal/block/block.go: the version bits, the difficulty and the merkle root.
use go_bitcoin.Base.{
  ℕ, ◌-◌, ◌*◌, ◌/◌, ◌^◌, bit_and, Bool, true, List, map, reverse, ◌==◌, if◌then◌else◌,
}
use go_bitcoin.Base.{
  bytes_equal, bytes_equal_self, bytes_equal→eq, Result, ok, panic, ◌>>=◌, ◌≡◌, ◌↔◌, refl, sym, ap,
  ◌∙◌,
}
use go_bitcoin.Encoding.Hash.{Hashes, hash256}
use go_bitcoin.Encoding.Merkle.{merkle_root}
use go_bitcoin.Encoding.Merkle.Perfect.{Perfect, leaves, tree_hash, merkle_root-leaves}
use go_bitcoin.Block.Header.{Block, serialize}
use go_bitcoin.Block.Target.{bits_to_target}

unfoldable pub hash : Hashes → Block → List ℕ
hash h b = hash256 h (serialize b)

unfoldable pub is_bip9 : Block → Bool
is_bip9 b = b.version / 2 ^ 29 == 1

unfoldable pub is_bip91 : Block → Bool
is_bip91 b = bit_and (b.version / 2 ^ 4) 1 == 1

unfoldable pub is_bip141 : Block → Bool
is_bip141 b = bit_and (b.version / 2 ^ 1) 1 == 1

abbrev pub diff_base_coeff : ℕ
diff_base_coeff = 0xffff

abbrev pub diff_base_exp : ℕ
diff_base_exp = 0x1d

-- Div of math/big panics on zero.
unfoldable pub difficulty : Block → Result ℕ
difficulty b =
    let target = bits_to_target b.bits in
    if target == 0 then panic else ok (diff_base_coeff * 2 ^ (8 * (diff_base_exp - 3)) / target)

-- The transaction hashes are reversed first.
unfoldable pub validate_merkle_root : Hashes → Block → Result Bool
validate_merkle_root h b = do
  root ← merkle_root h (map (λ x. reverse x) b.tx_hashes)
  ok (bytes_equal b.merkle_root root)

-- Where the reversed transaction hashes are the leaves of a perfect binary tree, ValidateMerkleRoot
-- accepts the block exactly when its header holds the hash of the tree.
pub validate_merkle_root-leaves :
    (h : Hashes) (b : Block) {k : ℕ} (t : Perfect k)
    → map (λ x. reverse x) b.tx_hashes ≡ leaves t
    → (validate_merkle_root h b ≡ ok true) ↔ (b.merkle_root ≡ tree_hash h t)
unfolding validate_merkle_root
validate_merkle_root-leaves h b t e =
    let value : validate_merkle_root h b ≡ ok (bytes_equal b.merkle_root (tree_hash h t)) =
      rw (e, merkle_root-leaves h t) refl in
    (
      (λ valid. bytes_equal→eq b.merkle_root (tree_hash h t) (let both = sym value ∙ valid in cc)),
      (λ same. value ∙ ap ok (rw same (bytes_equal_self (tree_hash h t)))),
    )
