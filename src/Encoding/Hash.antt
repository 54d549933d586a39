-- ===== src/Encoding/Hash.antt =====
-- internal/encoding/hash.go: the compositions of hash functions.
pub mod Murmur
pub mod Sip
mod Tests
use go_bitcoin.Base.{ℕ, List, ◌≡◌, length}

-- crypto/sha256, crypto/sha1 and golang.org/x/crypto/ripemd160.
pub record Hashes : Type 0 where
  pub sha256 : List ℕ → List ℕ
  pub sha1 : List ℕ → List ℕ
  pub ripemd160 : List ℕ → List ℕ
  pub length-sha256 : (bs : List ℕ) → length (sha256 bs) ≡ 32
  pub length-ripemd160 : (bs : List ℕ) → length (ripemd160 bs) ≡ 20

module _ (h : Hashes) where
  unfoldable pub hash256 : List ℕ → List ℕ
  hash256 d = h.sha256 (h.sha256 d)

  unfoldable pub hash160 : List ℕ → List ℕ
  hash160 d = h.ripemd160 (h.sha256 d)
