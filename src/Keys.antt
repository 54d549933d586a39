-- ===== src/Keys.antt =====
-- internal/keys/keys.go: private keys, and public keys read from their SEC form.
pub mod Wif
mod Tests
use go_bitcoin.Base.{ℕ, Bool, List, [], ◌∷◌, ◌++◌, if◌then◌else◌, Result, ok, ◌>>=◌}
use go_bitcoin.Base.BigInt.{set_bytes}
use go_bitcoin.Encoding.Hash.{Hashes}
use go_bitcoin.Encoding.Base58.{encode_base58_checksum}
use go_bitcoin.Eccmath.Point.{Point}
use go_bitcoin.Eccmath.Signature.{Signature}
use go_bitcoin.Eccmath.Secp256k1
use go_bitcoin.Eccmath.Secp256k1.{
  Secp256k1Group, new_bitcoin, scalar_base_multiply, padded, deserialize,
}

abbrev pub wif_prefix_mainnet : ℕ
wif_prefix_mainnet = 0x80

abbrev pub wif_prefix_testnet : ℕ
wif_prefix_testnet = 0xef

abbrev pub wif_compressed_suffix : ℕ
wif_compressed_suffix = 0x01

pub record PrivateKey : Type 0 where
  pub secret : ℕ
  pub group : Secp256k1Group

unfoldable pub new_private_key : ℕ → Result PrivateKey
new_private_key secret = do bc ← new_bitcoin; ok (record { secret = secret; group = bc })

unfoldable pub public_key : PrivateKey → Result Point
public_key pk = scalar_base_multiply pk.group pk.secret

-- The random number that Sign draws is an argument.
unfoldable pub sign : PrivateKey → Result ℕ → ℕ → Result Signature
sign pk random z = Secp256k1.sign pk.group random pk.secret z

unfoldable pub sign_hash : PrivateKey → Result ℕ → List ℕ → Result Signature
unfolding sign
sign_hash pk random hash = sign pk random (set_bytes hash)

-- The bytes that the wallet import format encodes
unfoldable pub wif_bytes : PrivateKey → Bool → Bool → Result (List ℕ)
wif_bytes pk compressed testnet = do
  secret_bytes ← padded pk.secret
  ok (
      (if testnet then wif_prefix_testnet else wif_prefix_mainnet)
      ∷ (secret_bytes ++ (if compressed then wif_compressed_suffix ∷ [] else [])))

unfoldable pub serialize : Hashes → PrivateKey → Bool → Bool → Result (List ℕ)
unfolding wif_bytes
serialize h pk compressed testnet = do
  result ← wif_bytes pk compressed testnet
  ok (encode_base58_checksum h result)

-- The bytes that io.ReadAll leaves behind the ones it read are an argument.
unfoldable pub parse_public_key : List ℕ → List ℕ → Result Point
parse_public_key bs spare = do bc ← new_bitcoin; deserialize bc bs spare
