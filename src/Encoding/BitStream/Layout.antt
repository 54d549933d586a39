-- ===== src/Encoding/BitStream/Layout.antt =====
-- Bits in bytes: the value of a byte whose high bits are given, and the positions of bits.
use go_bitcoin.Base.{
  ℕ, zero, suc, ◌+◌, ◌-◌, ◌*◌, ◌/◌, ◌%◌, ◌^◌, ◌<◌, bit_and, bit_or, Bool, true, false, List, [],
  ◌∷◌, ◌++◌,
}
use go_bitcoin.Base.{append-nil, ◌==◌, length, if◌then◌else◌, ◌≡◌, refl, sym, ap, ◌∙◌, arith}
use go_bitcoin.Base.Bits.{bit_or_fields, bit_and_bit}
use go_bitcoin.Encoding.BitStream.{bit_value}
use native.Mathlib.Nat.{pow-suc, mul-add-div_right, div-eq_of_lt, one-le-pow}

-- The number of `k` bits that begins with the bits given and goes on with zeros.
abbrev pub high : ℕ → List Bool → ℕ
high zero bits = 0
high (suc k) [] = 0
high (suc k) (b ∷ bits) = bit_value b * 2 ^ k + high k bits

pub high-lt : (k : ℕ) (bits : List Bool) → high k bits < 2 ^ k
high-lt zero bits = omega arith
high-lt (suc k) [] = ground (arith, pow-suc 2 k, high-lt k [])
high-lt (suc k) (true ∷ bits) = ground (arith, pow-suc 2 k, high-lt k bits)
high-lt (suc k) (false ∷ bits) = ground (arith, pow-suc 2 k, high-lt k bits)

high_nil : (k : ℕ) → high k [] ≡ 0
high_nil zero = refl
high_nil (suc k) = refl

two_pow_sum : (m n : ℕ) → 2 ^ (m + n) ≡ 2 ^ m * 2 ^ n
two_pow_sum zero n = let unit : 0 + n ≡ n = omega arith in rw unit (omega arith)
two_pow_sum (suc m) n =
    let shift : suc m + n ≡ suc (m + n) = omega arith in
    rw shift (grind (arith, pow-suc 2 (m + n), pow-suc 2 m, two_pow_sum m n))

-- The bits before a position are a multiple of the weight of the last of them.
high_split :
    (k : ℕ) (pre : List Bool) (r : ℕ) (post : List Bool)
    → length pre + r ≡ k
    → high k (pre ++ post) ≡ high (length pre) pre * 2 ^ r + high r post
high_split k [] r post e =
    let same : k ≡ r = omega arith in ap (λ n. high n post) same ∙ omega arith
high_split zero (b ∷ pre) r post e = absurd (omega arith)
high_split (suc k) (b ∷ pre) r post e =
    let below : length pre + r ≡ k = omega arith in
    let h : high k (pre ++ post) ≡ high (length pre) pre * 2 ^ r + high r post =
      high_split k pre r post below in
    grind (arith, h, below, two_pow_sum (length pre) r)

bit_value-lt : (b : Bool) → bit_value b < 2
bit_value-lt true = omega arith
bit_value-lt false = omega arith

-- The bit behind the first ones is read by its mask.
pub bit_and-high :
    (pre : List Bool) (b : Bool) (post : List Bool) (r : ℕ)
    → length pre + suc r ≡ 8
    → bit_and (high 8 (pre ++ (b ∷ post))) (2 ^ r) ≡ bit_value b * 2 ^ r
bit_and-high pre b post r e =
    let q = high (length pre) pre in
    let split : high 8 (pre ++ (b ∷ post)) ≡ (2 * q + bit_value b) * 2 ^ r + high r post =
      high_split 8 pre (suc r) (b ∷ post) e ∙ grind (arith, pow-suc 2 r) in
    let digit : ((2 * q + bit_value b) * 2 ^ r + high r post) / 2 ^ r ≡ 2 * q + bit_value b =
      mul-add-div_right (one-le-pow r 2 (omega arith)) (2 * q + bit_value b) (high r post)
      ∙ omega (arith, div-eq_of_lt (high-lt r post)) in
    let low : (2 * q + bit_value b) % 2 ≡ bit_value b = omega (arith, bit_value-lt b) in
    bit_and_bit r (high 8 (pre ++ (b ∷ post))) ∙ rw (split, digit) (ap (λ n. n * 2 ^ r) low)

-- A bit behind the first ones is set in the byte that they begin.
pub bit_or-high :
    (pre : List Bool) (b : Bool) (r : ℕ)
    → length pre + suc r ≡ 8
    → bit_or (high 8 pre) (bit_value b * 2 ^ r) ≡ high 8 (pre ++ (b ∷ []))
bit_or-high pre b r e =
    let q = high (length pre) pre in
    let before : high 8 pre ≡ q * 2 ^ suc r =
      ap (high 8) (sym (append-nil pre)) ∙ high_split 8 pre (suc r) [] e ∙ omega arith in
    let after : high 8 (pre ++ (b ∷ [])) ≡ q * 2 ^ suc r + bit_value b * 2 ^ r =
      high_split 8 pre (suc r) (b ∷ []) e ∙ omega (arith, high_nil r) in
    let small : bit_value b * 2 ^ r < 2 ^ suc r =
      grind (arith, pow-suc 2 r, bit_value-lt b, one-le-pow r 2) in
    rw (before, after) (bit_or_fields (suc r) q (bit_value b * 2 ^ r) small)

-- The byte that is read at a position, as the reader tests it
pub tested_bit :
    (pre : List Bool) (b : Bool) (post : List Bool) (j : ℕ)
    → j ≡ length pre
    → length pre < 8
    → (if bit_and (high 8 (pre ++ (b ∷ post))) (2 ^ (7 - j)) == 0 then 0x00 else 0x01) ≡ bit_value b
tested_bit pre b post j e h =
    let place : length pre + suc (7 - j) ≡ 8 = omega arith in
    rw (bit_and-high pre b post (7 - j) place) (tested b)
  where
    tested : (b : Bool) → (if bit_value b * 2 ^ (7 - j) == 0 then 0x00 else 0x01) ≡ bit_value b
    tested true = ground (arith, one-le-pow (7 - j) 2)
    tested false = ground arith
