-- ===== src/Address/Tests.antt =====
-- The vector of BIP173 that the source tests, and its address on the test network.
use go_bitcoin.Base.{ℕ, List, [], ◌∷◌, bytes_equal, true, ◌++◌, ok, ◌≡◌, refl}
use go_bitcoin.Base.Slices.{read_index}
use go_bitcoin.Address.Bech32.{
  encode_bech32, encode, convert_bits, convert_loop, emit, finish, characters, is_printable,
  create_checksum, checksum_groups, polymod, polymod_from, polymod_step, reduce, hrp_expand,
  verify_checksum,
}
use go_bitcoin.Address.Bech32.Checksum.{verify_checksum-create_checksum}

abbrev program : List ℕ
program =
    0x75 ∷ 0x1e ∷ 0x76 ∷ 0xe8 ∷ 0x19 ∷ 0x91 ∷ 0x96 ∷ 0xd4 ∷ 0x54 ∷ 0x94 ∷ 0x1c ∷ 0x45 ∷ 0xd1 ∷ 0xb3
    ∷ 0xa3 ∷ 0x23 ∷ 0xf1 ∷ 0x43 ∷ 0x3b ∷ 0xd6 ∷ []

-- bc1qw508d6qejxtdg4y5r3zarvary0c5xw7kv8f3t4
bip173_vector :
    encode_bech32 0 program (98 ∷ 99 ∷ [])
    ≡ ok (
        98 ∷ 99 ∷ 49 ∷ 113 ∷ 119 ∷ 53 ∷ 48 ∷ 56 ∷ 100 ∷ 54 ∷ 113 ∷ 101 ∷ 106 ∷ 120 ∷ 116 ∷ 100 ∷ 103
        ∷ 52 ∷ 121 ∷ 53 ∷ 114 ∷ 51 ∷ 122 ∷ 97 ∷ 114 ∷ 118 ∷ 97 ∷ 114 ∷ 121 ∷ 48 ∷ 99 ∷ 53 ∷ 120
        ∷ 119 ∷ 55 ∷ 107 ∷ 118 ∷ 56 ∷ 102 ∷ 51 ∷ 116 ∷ 52 ∷ [])
unfolding encode_bech32 encode convert_bits convert_loop emit finish characters is_printable
    create_checksum checksum_groups polymod polymod_from polymod_step reduce hrp_expand read_index
    bytes_equal
bip173_vector = refl

-- Any words can stand behind the part for the test network.
verify_checksum-create_checksum_example :
    verify_checksum
      (116 ∷ 98 ∷ [])
      ((0 ∷ 14 ∷ 20 ∷ 15 ∷ []) ++ create_checksum (116 ∷ 98 ∷ []) (0 ∷ 14 ∷ 20 ∷ 15 ∷ []))
    ≡ true
verify_checksum-create_checksum_example =
    verify_checksum-create_checksum (116 ∷ 98 ∷ []) (0 ∷ 14 ∷ 20 ∷ 15 ∷ [])
