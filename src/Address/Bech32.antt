-- ===== src/Address/Bech32.antt =====
-- internal/address/bech32.go. A text is the list of its code points; the ints of the data are not negative.
pub mod Checksum
use go_bitcoin.Base.{ℕ, zero, suc, ◌+◌, ◌-◌, ◌*◌, ◌/◌, ◌%◌, ◌^◌, bit_and, bit_or, bit_xor}
use go_bitcoin.Base.{
  Bool, true, false, not, ◌&&◌, ◌||◌, ltb, leb, ◌==◌, if◌then◌else◌, List, [], ◌∷◌, ◌++◌, map,
  length,
}
use go_bitcoin.Base.{bytes_equal, Result, ok, err, ◌>>=◌, invalid_input, bad_length}
use go_bitcoin.Base.Slices.{read_index}

-- "qpzry9x8gf2tvdw0s3jn54khce6mua7l"
abbrev pub charset : List ℕ
charset =
    113 ∷ 112 ∷ 122 ∷ 114 ∷ 121 ∷ 57 ∷ 120 ∷ 56 ∷ 103 ∷ 102 ∷ 50 ∷ 116 ∷ 118 ∷ 100 ∷ 119 ∷ 48 ∷ 115
    ∷ 51 ∷ 106 ∷ 110 ∷ 53 ∷ 52 ∷ 107 ∷ 104 ∷ 99 ∷ 101 ∷ 54 ∷ 109 ∷ 117 ∷ 97 ∷ 55 ∷ 108 ∷ []

abbrev pub generator : List ℕ
generator = 0x3b6a57b2 ∷ 0x26508e6d ∷ 0x1ea119fa ∷ 0x3d4233dd ∷ 0x2a1462b3 ∷ []

-- The rounds with the generators from the i-th bit of `top` on
unfoldable pub reduce : ℕ → List ℕ → ℕ → ℕ
reduce top [] chk = chk
reduce top (g ∷ gs) chk = reduce (top / 2) gs (if bit_and top 1 == 1 then bit_xor chk g else chk)

unfoldable pub polymod_step : ℕ → ℕ → ℕ
unfolding reduce
polymod_step chk v = reduce (chk / 2 ^ 25) generator (bit_xor (bit_and chk 0x1ffffff * 2 ^ 5) v)

unfoldable pub polymod_from : ℕ → List ℕ → ℕ
unfolding polymod_step
polymod_from chk [] = chk
polymod_from chk (v ∷ vs) = polymod_from (polymod_step chk v) vs

unfoldable pub polymod : List ℕ → ℕ
unfolding polymod_from
polymod values = polymod_from 1 values

unfoldable pub hrp_expand : List ℕ → List ℕ
hrp_expand hrp = map (λ c. c / 2 ^ 5) hrp ++ (0 ∷ map (λ c. bit_and c 31) hrp)

unfoldable pub verify_checksum : List ℕ → List ℕ → Bool
unfolding polymod hrp_expand
verify_checksum hrp values = polymod (hrp_expand hrp ++ values) == 1

-- The five-bit groups of a checksum, highest first
unfoldable pub checksum_groups : ℕ → List ℕ
checksum_groups value =
    bit_and (value / 2 ^ 25) 31
    ∷ bit_and (value / 2 ^ 20) 31
    ∷ bit_and (value / 2 ^ 15) 31
    ∷ bit_and (value / 2 ^ 10) 31
    ∷ bit_and (value / 2 ^ 5) 31
    ∷ bit_and value 31
    ∷ []

unfoldable pub create_checksum : List ℕ → List ℕ → List ℕ
unfolding polymod hrp_expand checksum_groups
create_checksum hrp values =
    checksum_groups
      (bit_xor (polymod ((hrp_expand hrp ++ values) ++ (0 ∷ 0 ∷ 0 ∷ 0 ∷ 0 ∷ 0 ∷ []))) 1)

-- strings.ToUpper and strings.ToLower, on the ASCII characters that are left by then
abbrev pub upper : ℕ → ℕ
upper c = if leb 97 c && leb c 122 then c - 32 else c

abbrev pub lower : ℕ → ℕ
lower c = if leb 65 c && leb c 90 then c + 32 else c

unfoldable pub is_printable : List ℕ → Bool
is_printable [] = true
is_printable (c ∷ cs) = not (ltb c 33 || ltb 126 c) && is_printable cs

unfoldable pub characters : List ℕ → Result (List ℕ)
characters [] = ok []
characters (p ∷ ps) =
    if leb (length charset) p
    then err invalid_input
    else (do c ← read_index charset p; cs ← characters ps; ok (c ∷ cs))

unfoldable pub encode : List ℕ → List ℕ → Result (List ℕ)
unfolding create_checksum is_printable characters
encode hrp values =
    let low = map lower hrp in
    if ltb 90 (length hrp + length values + 7)
    then err bad_length
    else if length hrp == 0
    then err bad_length
    else if not (is_printable hrp)
    then err invalid_input
    else if not (bytes_equal (map upper hrp) hrp) && not (bytes_equal low hrp)
    then err invalid_input
    else (do
      cs ← characters (values ++ create_checksum low values)
      let text = low ++ (49 ∷ cs)
      ok (if bytes_equal low hrp then text else map upper text))

-- The groups that are full, highest first, and how many bits are left
unfoldable pub emit : ℕ → ℕ → ℕ → ℕ → List ℕ × ℕ
emit zero to_bits acc bits = ([], bits)
emit (suc fuel) to_bits acc bits =
    let rest = emit fuel to_bits acc (bits - to_bits) in
    if leb to_bits bits
    then (bit_and (acc / 2 ^ (bits - to_bits)) (2 ^ to_bits - 1) ∷ rest.0, rest.1)
    else ([], bits)

-- The accumulator, an int, wraps; the groups are taken from its low bits. The number of bits in it is fuel
-- enough for the inner loop.
unfoldable pub convert_loop : ℕ → ℕ → ℕ → ℕ → List ℕ → Result (List ℕ × (ℕ × ℕ))
unfolding emit
convert_loop from_bits to_bits acc bits [] = ok ([], (acc, bits))
convert_loop from_bits to_bits acc bits (value ∷ values) =
    let acc' = bit_or (acc * 2 ^ from_bits % 2 ^ 64) value in
    let bits' = bits + from_bits in
    let out = emit bits' to_bits acc' bits' in
    if value / 2 ^ from_bits == 0
    then (do
      (more, end) ← convert_loop from_bits to_bits acc' out.1 values
      ok (out.0 ++ more, end))
    else err invalid_input

unfoldable pub finish : ℕ → ℕ → Bool → List ℕ → ℕ → ℕ → Result (List ℕ)
finish from_bits to_bits true ret acc bits = ok (
    if bits == 0
    then ret
    else ret ++ (bit_and (acc * 2 ^ (to_bits - bits) % 2 ^ 64) (2 ^ to_bits - 1) ∷ []))
finish from_bits to_bits false ret acc bits =
    if leb from_bits bits
    then err invalid_input
    else if bit_and (acc * 2 ^ (to_bits - bits) % 2 ^ 64) (2 ^ to_bits - 1) == 0
    then ok ret
    else err invalid_input

unfoldable pub convert_bits : List ℕ → ℕ → ℕ → Bool → Result (List ℕ)
unfolding convert_loop finish
convert_bits values from_bits to_bits pad = do
  (ret, (acc, bits)) ← convert_loop from_bits to_bits 0 0 values
  finish from_bits to_bits pad ret acc bits

unfoldable pub encode_bech32 : ℕ → List ℕ → List ℕ → Result (List ℕ)
unfolding convert_bits encode
encode_bech32 version program hrp = do
  converted ← convert_bits program 8 5 true
  encode hrp (version ∷ converted)
