-- ===== src/Encoding/BitField.antt =====
-- BytesToBitField and BitFieldToBytes of internal/encoding/hash.go.
use go_bitcoin.Base.{
  ℕ, zero, suc, ◌/◌, ◌^◌, ◌<◌, bit_and, bit_or, List, [], ◌∷◌, ◌++◌, ◌==◌, if◌then◌else◌,
}
use go_bitcoin.Base.{All, Result, ok, err, ◌>>=◌, invalid_input, ◌≡◌, refl, ap}
use go_bitcoin.Base.Bytes.{IsByte}
use go_bitcoin.Base.Table.{same_below, same_below_sound}

-- The eight rounds on one byte, lowest bit first
unfoldable pub byte_bits : ℕ → ℕ → List ℕ
byte_bits zero b = []
byte_bits (suc k) b = bit_and b 1 ∷ byte_bits k (b / 2)

unfoldable pub bytes_to_bit_field : List ℕ → List ℕ
unfolding byte_bits
bytes_to_bit_field [] = []
bytes_to_bit_field (b ∷ bs) = byte_bits 8 b ++ bytes_to_bit_field bs

-- `if bit != 0 { result[byteIndex] |= 1 << bitIndex }` on one byte of the result
unfoldable pub set_bit : ℕ → ℕ → ℕ → ℕ
set_bit i bit byte = if bit == 0 then byte else bit_or byte (2 ^ i)

-- Eight bits fill one byte; a number of bits that eight does not divide is refused.
unfoldable pub bit_field_to_bytes : List ℕ → Result (List ℕ)
unfolding set_bit
bit_field_to_bytes [] = ok []
bit_field_to_bytes (b0 ∷ b1 ∷ b2 ∷ b3 ∷ b4 ∷ b5 ∷ b6 ∷ b7 ∷ bits) = do
  rest ← bit_field_to_bytes bits
  ok (
      set_bit 7 b7 (
        set_bit 6 b6 (
          set_bit 5 b5
            (set_bit 4 b4 (set_bit 3 b3 (set_bit 2 b2 (set_bit 1 b1 (set_bit 0 b0 0)))))))
      ∷ rest)
bit_field_to_bytes _ = err invalid_input

-- The byte that the bits of a byte are packed into.
repacked : ℕ → ℕ
repacked b = set_bit 7 (bit_and (b / 2 / 2 / 2 / 2 / 2 / 2 / 2) 1) (
    set_bit 6 (bit_and (b / 2 / 2 / 2 / 2 / 2 / 2) 1) (
      set_bit 5 (bit_and (b / 2 / 2 / 2 / 2 / 2) 1) (
        set_bit 4 (bit_and (b / 2 / 2 / 2 / 2) 1) (
          set_bit 3 (bit_and (b / 2 / 2 / 2) 1) (
            set_bit 2 (bit_and (b / 2 / 2) 1)
              (set_bit 1 (bit_and (b / 2) 1) (set_bit 0 (bit_and b 1) 0)))))))

repacked-eq : (b : ℕ) → b < 256 → repacked b ≡ b
unfolding same_below repacked set_bit
repacked-eq b = same_below_sound repacked (λ x. x) 256 b refl

-- BitFieldToBytes packs the bits that BytesToBitField took apart into the same bytes.
pub bit_field_to_bytes-bytes_to_bit_field :
    (bs : List ℕ) → All IsByte bs → bit_field_to_bytes (bytes_to_bit_field bs) ≡ ok bs
unfolding bit_field_to_bytes bytes_to_bit_field byte_bits repacked
bit_field_to_bytes-bytes_to_bit_field [] h = refl
bit_field_to_bytes-bytes_to_bit_field (b ∷ bs) (hb, hs) =
    rw (bit_field_to_bytes-bytes_to_bit_field bs hs)
      (ap (λ (x : ℕ). ok (x ∷ bs)) (repacked-eq b hb))
