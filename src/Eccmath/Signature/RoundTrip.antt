-- ===== src/Eccmath/Signature/RoundTrip.antt =====
-- Parsing back the DER form of a signature.
use go_bitcoin.Base.{ℕ, ◌+◌, ◌%◌, ◌^◌, ◌<◌, ◌≤◌, List, [], ◌∷◌, ◌++◌}
use go_bitcoin.Base.{length, ◌≡◌, refl, ◌∙◌, arith, append_assoc}
use go_bitcoin.Base.{ok}
use go_bitcoin.Base.Bytes.{Reader, le_decode-one}
use go_bitcoin.Base.Bytes.Reading.{read_full-append, read_exactly-append}
use go_bitcoin.Base.BigInt.{
  set_bytes, to_bytes, set_bytes-to_bytes, set_bytes-zero, length-to_bytes,
}
use native.Mathlib.Nat.{mod-eq_of_lt}
use go_bitcoin.Eccmath.Signature.{Signature, parse_integer, parse_signature, trim_zeros, pad_high}
use go_bitcoin.Eccmath.Signature.{int_bytes, serialize}

set_bytes-trim_zeros : (bs : List ℕ) → set_bytes (trim_zeros bs) ≡ set_bytes bs
unfolding trim_zeros
set_bytes-trim_zeros [] = refl
set_bytes-trim_zeros (b ∷ bs) = ground (arith, set_bytes-trim_zeros bs, set_bytes-zero bs)

length-trim_zeros : (bs : List ℕ) → length (trim_zeros bs) ≤ length bs
unfolding trim_zeros
length-trim_zeros [] = omega arith
length-trim_zeros (b ∷ bs) = ground (arith, length-trim_zeros bs)

set_bytes-pad_high : (bs : List ℕ) → set_bytes (pad_high bs) ≡ set_bytes bs
unfolding pad_high
set_bytes-pad_high [] = refl
set_bytes-pad_high (b ∷ bs) = ground (arith, set_bytes-zero (b ∷ bs))

length-pad_high : (bs : List ℕ) → length (pad_high bs) ≤ length bs + 1
unfolding pad_high
length-pad_high [] = omega arith
length-pad_high (b ∷ bs) = ground arith

set_bytes-int_bytes : (n : ℕ) → set_bytes (int_bytes n) ≡ n
unfolding int_bytes
set_bytes-int_bytes n =
    set_bytes-pad_high (trim_zeros (to_bytes n))
    ∙ set_bytes-trim_zeros (to_bytes n)
    ∙ set_bytes-to_bytes n

length-int_bytes : (n : ℕ) → n < 256 ^ 254 → length (int_bytes n) < 256
unfolding int_bytes
length-int_bytes n h = omega (
  arith,
  length-pad_high (trim_zeros (to_bytes n)),
  length-trim_zeros (to_bytes n),
  length-to_bytes 254 n h,
)

parse_integer-int_bytes :
    (n : ℕ) (rest : List ℕ)
    → n < 256 ^ 254
    → parse_integer (0x02 ∷ (length (int_bytes n) % 256) ∷ (int_bytes n ++ rest)) ≡ ok (n, rest)
unfolding parse_integer
parse_integer-int_bytes n rest h =
    let bs = int_bytes n in
    rw (
      read_full-append 1 (0x02 ∷ []) ((length bs % 256) ∷ (bs ++ rest)) refl,
      read_full-append 1 ((length bs % 256) ∷ []) (bs ++ rest) refl,
      le_decode-one 0x02,
      le_decode-one (length bs % 256),
      mod-eq_of_lt (length-int_bytes n h),
      read_full-append (length bs) bs rest refl,
      set_bytes-int_bytes n,
    )

-- ParseSignature reads back the DER form of a signature whose two numbers are below 256^254, which
-- those of a 256-bit group are, and leaves alone what follows it.
pub parse_signature-serialize :
    (rd : Reader) (sig : Signature) (rest : List ℕ)
    → sig.r < 256 ^ 254
    → sig.s < 256 ^ 254
    → parse_signature rd (serialize sig ++ rest) ≡ ok sig
unfolding parse_signature serialize
parse_signature-serialize rd sig rest hr hs =
    let r_bytes = int_bytes sig.r in
    let s_bytes = int_bytes sig.s in
    let total = (1 + 1 + length r_bytes + 1 + 1 + length s_bytes) % 256 in
    let after_s = s_bytes ++ rest in
    let s_part : List ℕ = 0x02 ∷ (length s_bytes % 256) ∷ after_s in
    let r_part : List ℕ = 0x02 ∷ (length r_bytes % 256) ∷ (r_bytes ++ s_part) in
    rw (
      append_assoc r_bytes (0x02 ∷ (length s_bytes % 256) ∷ s_bytes) rest,
      read_exactly-append rd 1 (0x30 ∷ []) (total ∷ r_part) (omega arith) refl,
      le_decode-one 0x30,
      read_exactly-append rd 1 (total ∷ []) r_part (omega arith) refl,
      parse_integer-int_bytes sig.r s_part hr,
      parse_integer-int_bytes sig.s rest hs,
    )
