-- ===== src/Keys/Wif.antt =====
-- The wallet import format of a private key, read back.
use go_bitcoin.Base.{
  Bool-cases, inl, inr, ℕ, zero, suc, ◌-◌, ◌/◌, ◌^◌, ◌≤◌, ◌<◌, Bool, true, false, leb, ◌==◌, List,
  [], ◌∷◌, ◌++◌,
}
use go_bitcoin.Base.{
  All, All-append, length, length-append, ok, ◌>>=◌, ◌≡◌, refl, ◌∙◌, arith, if◌then◌else◌,
}
use go_bitcoin.Base.Bytes.{IsByte}
use go_bitcoin.Base.BigInt.{
  to_bytes, set_bytes, le_digits, set_bytes-zero, set_bytes-to_bytes, length-to_bytes,
}
use go_bitcoin.Encoding.Hash.{Hashes, hash256}
use go_bitcoin.Encoding.Base58.{decode_base58, encode_base58_checksum}
use go_bitcoin.Encoding.Base58.RoundTrip.{All-reverse, decode_base58-encode_base58_checksum}
use go_bitcoin.Eccmath.Secp256k1.{padded, zeros}
use go_bitcoin.Keys.{
  PrivateKey, wif_bytes, serialize, wif_compressed_suffix, wif_prefix_testnet, wif_prefix_mainnet,
}

le_digits-AreBytes : (fuel n : ℕ) → All IsByte (le_digits fuel n)
unfolding le_digits
le_digits-AreBytes zero n = tt
le_digits-AreBytes (suc fuel) n = elim (Bool-cases (n == 0)) [
  | inl none_left ↦ rw none_left tt
  | inr more ↦ rw more (omega arith, le_digits-AreBytes fuel (n / 256))
]

to_bytes-AreBytes : (n : ℕ) → All IsByte (to_bytes n)
unfolding to_bytes
to_bytes-AreBytes n = All-reverse (le_digits n n) (le_digits-AreBytes n n)

set_bytes-zeros : (k : ℕ) (bs : List ℕ) → set_bytes (zeros k ++ bs) ≡ set_bytes bs
set_bytes-zeros zero bs = refl
set_bytes-zeros (suc k) bs = set_bytes-zero (zeros k ++ bs) ∙ set_bytes-zeros k bs

zeros-AreBytes : (k : ℕ) → All IsByte (zeros k)
zeros-AreBytes zero = tt
zeros-AreBytes (suc k) = (omega arith, zeros-AreBytes k)

length-zeros : (k : ℕ) → length (zeros k) ≡ k
length-zeros zero = refl
length-zeros (suc k) = omega (arith, length-zeros k)

-- The 32 bytes of a number that fits
abbrev pub bytes32 : ℕ → List ℕ
bytes32 n = zeros (32 - length (to_bytes n)) ++ to_bytes n

padded-bytes32 : (n : ℕ) → n < 2 ^ 256 → padded n ≡ ok (bytes32 n)
unfolding padded
padded-bytes32 n h =
    let short : length (to_bytes n) ≤ 32 = length-to_bytes 32 n h in
    let fits : leb (length (to_bytes n)) 32 ≡ true = ground arith in rw fits refl

-- Behind the version of the network, the compressed form has one byte more than the secret.
abbrev pub suffix : Bool → List ℕ
suffix compressed = if compressed then wif_compressed_suffix ∷ [] else []

suffix-AreBytes : (compressed : Bool) → All IsByte (suffix compressed)
suffix-AreBytes true = (omega arith, tt)
suffix-AreBytes false = tt

abbrev prefix : Bool → ℕ
prefix testnet = if testnet then wif_prefix_testnet else wif_prefix_mainnet

prefix-IsByte : (testnet : Bool) → IsByte (prefix testnet)
prefix-IsByte true = omega arith
prefix-IsByte false = omega arith

-- Where SHA-256 gives bytes, a secret below 2^256 is written in the wallet import format, and DecodeBase58 gives
-- back 32 bytes of which the secret is the number, and a 1 behind them in the compressed form.
pub decode_base58-serialize :
    (h : Hashes) (pk : PrivateKey) (compressed testnet : Bool)
    → ((bs : List ℕ) → All IsByte (h.sha256 bs))
    → pk.secret < 2 ^ 256
    → ((serialize h pk compressed testnet >>= λ text. decode_base58 h text)
        ≡ ok (bytes32 pk.secret ++ suffix compressed))
      × (length (bytes32 pk.secret) ≡ 32)
      × (set_bytes (bytes32 pk.secret) ≡ pk.secret)
unfolding serialize wif_bytes hash256
decode_base58-serialize h pk compressed testnet bytes fits =
    let payload : List ℕ = bytes32 pk.secret ++ suffix compressed in
    let short : length (to_bytes pk.secret) ≤ 32 = length-to_bytes 32 pk.secret fits in
    let payload_bytes : All IsByte payload =
      All-append IsByte (bytes32 pk.secret) (suffix compressed)
        (All-append IsByte (zeros (32 - length (to_bytes pk.secret))) (to_bytes pk.secret)
          (zeros-AreBytes (32 - length (to_bytes pk.secret))) (to_bytes-AreBytes pk.secret))
        (suffix-AreBytes compressed) in
    let read : (version : ℕ)
        → IsByte version
        → decode_base58 h (encode_base58_checksum h (version ∷ payload)) ≡ ok payload =
      λ version v.
        decode_base58-encode_base58_checksum h version payload (v, payload_bytes)
          (bytes (h.sha256 (version ∷ payload))) in
    (
      rw (padded-bytes32 pk.secret fits) (read (prefix testnet) (prefix-IsByte testnet)),
      omega (
        arith,
        length-append (zeros (32 - length (to_bytes pk.secret))) (to_bytes pk.secret),
        length-zeros (32 - length (to_bytes pk.secret)),
      ),
      set_bytes-zeros (32 - length (to_bytes pk.secret)) (to_bytes pk.secret)
          ∙ set_bytes-to_bytes pk.secret,
    )
