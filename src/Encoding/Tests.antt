-- ===== src/Encoding/Tests.antt =====
-- Runs of the variable-length integers at concrete numbers.
use go_bitcoin.Base.{[], ◌∷◌, ◌++◌, ok, ◌>>=◌, ◌≡◌, refl, arith}
use go_bitcoin.Encoding.VarInt.{read_var_int, encode_var_int}
use go_bitcoin.Encoding.VarInt.RoundTrip.{read_var_int-encode_var_int}
use go_bitcoin.Base.{ℕ, zero, suc, List}
use go_bitcoin.Encoding.Hash.{Hashes, hash256}
use go_bitcoin.Base.{All}
use go_bitcoin.Base.Bytes.{IsByte}
use go_bitcoin.Encoding.Base58.{decode_base58, encode_base58_checksum}
use go_bitcoin.Encoding.Base58.RoundTrip.{decode_base58-encode_base58_checksum}
use go_bitcoin.Encoding.BitField.{}
use go_bitcoin.Encoding.Merkle.{merkle_root, last_hash}
use go_bitcoin.Encoding.Merkle.Levels.{merkle_root_repeated_last}

read_var_int-encode_var_int_example :
    (encode_var_int 70015 >>= λ bs. read_var_int (bs ++ (7 ∷ []))) ≡ ok (70015, 7 ∷ [])
read_var_int-encode_var_int_example = read_var_int-encode_var_int 70015 (7 ∷ []) (omega arith)

abbrev ones : ℕ → List ℕ
ones zero = []
ones (suc k) = 1 ∷ ones k

abbrev test_hashes : Hashes
test_hashes = record {
  sha256 = λ bs. ones 32;
  sha1 = λ bs. ones 20;
  ripemd160 = λ bs. ones 20;
  length-sha256 = λ bs. refl;
  length-ripemd160 = λ bs. refl;
}

merkle_root_repeated_last_example :
    merkle_root test_hashes ((1 ∷ []) ∷ (2 ∷ []) ∷ (3 ∷ []) ∷ (3 ∷ []) ∷ [])
    ≡ merkle_root test_hashes ((1 ∷ []) ∷ (2 ∷ []) ∷ (3 ∷ []) ∷ [])
unfolding last_hash
merkle_root_repeated_last_example =
    merkle_root_repeated_last test_hashes (1 ∷ []) (2 ∷ []) ((3 ∷ []) ∷ []) (3 ∷ []) (omega arith)
      refl

ones-AreBytes : (k : ℕ) → All IsByte (ones k)
ones-AreBytes zero = tt
ones-AreBytes (suc k) = (omega arith, ones-AreBytes k)

decode_base58-encode_base58_checksum_example :
    decode_base58 test_hashes (encode_base58_checksum test_hashes (0 ∷ 0 ∷ 200 ∷ []))
    ≡ ok (0 ∷ 200 ∷ [])
unfolding hash256
decode_base58-encode_base58_checksum_example =
    decode_base58-encode_base58_checksum test_hashes 0 (0 ∷ 200 ∷ [])
      (omega arith, (omega arith, (omega arith, tt))) (ones-AreBytes 32)
