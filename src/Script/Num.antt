-- ===== src/Script/Num.antt =====
-- EncodeNum and DecodeNum of internal/script/script.go. An int64 is its bit pattern, a number below
-- 2^64, and a pattern from 2^63 on stands for the pattern less 2^64.
pub mod RoundTrip
use go_bitcoin.Base.{ℕ, zero, suc, ◌+◌, ◌-◌, ◌*◌, ◌/◌, ◌%◌, ◌^◌, ◌<◌, bit_and, bit_or, arith}
use go_bitcoin.Base.{Bool, true, false, not, List, [], ◌∷◌, ◌++◌}
use go_bitcoin.Base.{ltb, leb, ◌==◌, if◌then◌else◌, length, take}
use go_bitcoin.Base.{Result, ok, panic}

abbrev pub int64_mod : ℕ
int64_mod = 2 ^ 64

abbrev pub is_negative : ℕ → Bool
is_negative w = leb (2 ^ 63) w

-- Unary minus on int64, which maps -2^63 to itself.
abbrev pub neg64 : ℕ → ℕ
neg64 w = (2 ^ 64 - w) % 2 ^ 64

-- `for absN > 0 { result = append(result, byte(absN&0xff)); absN >>= 8 }`: eight rounds leave
-- nothing of a number below 2^63. A negative `absN` makes no round.
unfoldable pub magnitude_bytes : ℕ → ℕ → List ℕ
magnitude_bytes zero n = []
magnitude_bytes (suc fuel) n =
    let rest = magnitude_bytes fuel (n / 256) in if n == 0 then [] else bit_and n 0xff ∷ rest

-- The sign goes into the last byte where its top bit is free, and into one more byte otherwise.
-- On no byte at all, `result[len(result)-1]` panics.
unfoldable pub with_sign : Bool → List ℕ → Result (List ℕ)
with_sign negative [] = panic
with_sign negative (b ∷ []) =
    if not (bit_and b 0x80 == 0)
    then ok (b ∷ (if negative then 0x80 else 0x00) ∷ [])
    else if negative
    then ok (bit_or b 0x80 ∷ [])
    else ok (b ∷ [])
with_sign negative (b ∷ c ∷ bs) = elim (with_sign negative (c ∷ bs)) [
  | ok r ↦ ok (b ∷ r)
  | _ ↦ panic
]

unfoldable pub encode_num : ℕ → Result (List ℕ)
encode_num n =
    if n == 0
    then ok []
    else let negative = is_negative n in
      let abs_n = if negative then neg64 n else n in
      with_sign negative (if is_negative abs_n then [] else magnitude_bytes 8 abs_n)

-- The loop of DecodeNum from the last byte down to the first, as a recursion on the list: the
-- last byte is stripped of its sign bit, and each earlier byte goes below what is already there.
unfoldable pub decode_magnitude : List ℕ → ℕ
decode_magnitude [] = 0
decode_magnitude (b ∷ []) = bit_and b 0x7f
decode_magnitude (b ∷ c ∷ bs) = bit_or (decode_magnitude (c ∷ bs) * 2 ^ 8 % 2 ^ 64) b

unfoldable pub sign_bit : List ℕ → Bool
sign_bit [] = false
sign_bit (b ∷ []) = not (bit_and b 0x80 == 0)
sign_bit (b ∷ c ∷ bs) = sign_bit (c ∷ bs)

unfoldable pub decode_num : List ℕ → ℕ
decode_num d = if sign_bit d then neg64 (decode_magnitude d) else decode_magnitude d
