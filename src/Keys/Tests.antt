-- ===== src/Keys/Tests.antt =====
-- A small secret in the wallet import format of the test network.
use go_bitcoin.Base.{
  ℕ, zero, suc, ◌*◌, ◌+◌, ◌%◌, List, [], ◌∷◌, ◌++◌, All, true, length, ok, ◌>>=◌, ◌≡◌, refl, arith,
}
use go_bitcoin.Base.Bytes.{IsByte}
use go_bitcoin.Base.BigInt.{set_bytes}
use go_bitcoin.Encoding.Hash.{Hashes}
use go_bitcoin.Encoding.Base58.{decode_base58}
use go_bitcoin.Eccmath.Point.{infinity}
use go_bitcoin.Eccmath.Secp256k1.{make_secp256k1}
use go_bitcoin.Keys.{PrivateKey, serialize}
use go_bitcoin.Keys.Wif.{bytes32, suffix, decode_base58-serialize}

-- A hash of the sum of the bytes
abbrev sum : List ℕ → ℕ
sum [] = 0
sum (b ∷ bs) = (b + 3 * sum bs) % 256

abbrev repeated : ℕ → ℕ → List ℕ
repeated zero b = []
repeated (suc k) b = b ∷ repeated k b

length-repeated : (k b : ℕ) → length (repeated k b) ≡ k
length-repeated zero b = refl
length-repeated (suc k) b = omega (arith, length-repeated k b)

abbrev sum_hashes : Hashes
sum_hashes = record {
  sha256 = λ bs. repeated 32 (sum bs);
  sha1 = λ bs. repeated 20 (sum bs);
  ripemd160 = λ bs. repeated 20 (sum bs);
  length-sha256 = λ bs. length-repeated 32 (sum bs);
  length-ripemd160 = λ bs. length-repeated 20 (sum bs);
}

sum-IsByte : (bs : List ℕ) → IsByte (sum bs)
sum-IsByte [] = omega arith
sum-IsByte (b ∷ bs) = omega arith

repeated-AreBytes : (k b : ℕ) → IsByte b → All IsByte (repeated k b)
repeated-AreBytes zero b h = tt
repeated-AreBytes (suc k) b h = (h, repeated-AreBytes k b h)

abbrev small_key : PrivateKey
small_key = record {
  secret = 0x123456;
  group = record { curve = make_secp256k1; generator = infinity make_secp256k1; order = 7 };
}

decode_base58-serialize_example :
    ((serialize sum_hashes small_key true true >>= λ text. decode_base58 sum_hashes text)
      ≡ ok (bytes32 0x123456 ++ suffix true))
    × (length (bytes32 0x123456) ≡ 32)
    × (set_bytes (bytes32 0x123456) ≡ 0x123456)
decode_base58-serialize_example =
    decode_base58-serialize sum_hashes small_key true true
      (λ bs. repeated-AreBytes 32 (sum bs) (sum-IsByte bs)) (omega arith)
