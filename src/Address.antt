-- ===== src/Address.antt =====
-- internal/address/address.go. A text is the list of its code points.
pub mod Bech32
mod Tests
use go_bitcoin.Base.{ℕ, Bool, List, [], ◌∷◌, ◌++◌, length, ◌==◌, ◌||◌, not, if◌then◌else◌}
use go_bitcoin.Base.{Result, ok, err, ◌>>=◌, invalid_input, bad_length}
use go_bitcoin.Encoding.Hash.{Hashes, hash160}
use go_bitcoin.Encoding.Base58.{encode_base58_checksum}
use go_bitcoin.Address.Bech32.{encode_bech32}

-- The two networks; the methods give any other number what they give MAINNET.
pub data Network : Type 0 where
  mainnet testnet : Network

unfoldable pub bech32_hrp : Network → List ℕ
bech32_hrp mainnet = 98 ∷ 99 ∷ []
bech32_hrp testnet = 116 ∷ 98 ∷ []

unfoldable pub p2pkh_version : Network → ℕ
p2pkh_version mainnet = 0x00
p2pkh_version testnet = 0x6F

unfoldable pub p2sh_version : Network → ℕ
p2sh_version mainnet = 0x05
p2sh_version testnet = 0xC4

pub data AddrType : Type 0 where
  p2pkh p2sh p2wpkh p2wsh p2tr : AddrType

pub record Address : Type 0 where
  pub addr_type : AddrType
  pub network : Network
  pub string : List ℕ

module _ (h : Hashes) where
  unfoldable pub from_hash160 : List ℕ → AddrType → Network → Result Address
  unfolding p2pkh_version p2sh_version
  from_hash160 hash p2pkh net = ok (record {
    addr_type = p2pkh;
    network = net;
    string = encode_base58_checksum h (p2pkh_version net ∷ hash);
  })
  from_hash160 hash p2sh net = ok (record {
    addr_type = p2sh;
    network = net;
    string = encode_base58_checksum h (p2sh_version net ∷ hash);
  })
  from_hash160 hash _ net = err invalid_input

  unfoldable pub from_public_key : List ℕ → AddrType → Network → Result Address
  unfolding from_hash160
  from_public_key pubkey addr_type net = from_hash160 (hash160 h pubkey) addr_type net

unfoldable pub from_witness_program : ℕ → List ℕ → Network → Result Address
unfolding bech32_hrp
from_witness_program version program net =
    if not (length program == 20 || length program == 32)
    then err bad_length
    else if version == 0
    then (do
      text ← encode_bech32 version program (bech32_hrp net)
      ok (record {
        addr_type = if length program == 20 then p2wpkh else p2wsh;
        network = net;
        string = text;
      }))
    else err invalid_input
