-- ===== src/Script/Num/RoundTrip.antt =====
-- Decoding what EncodeNum wrote.
use go_bitcoin.Base.{ℕ, zero, suc, ◌+◌, ◌-◌, ◌*◌, ◌/◌, ◌%◌, ◌^◌, ◌<◌, bit_and, arith}
use go_bitcoin.Base.{Bool, true, false, List, [], ◌∷◌, ◌≡◌, ◌≢◌, ◌↔◌, refl, ◌∙◌}
use go_bitcoin.Base.{ltb, ◌==◌, if◌then◌else◌, Bool-cases, All}
use go_bitcoin.Base.{ok, panic, inl, inr}
use go_bitcoin.Base.Bits.{bit_and_mask, bit_or_fields}
use go_bitcoin.Base.Table.{byte-and-0x80, byte-or-0x80}
use go_bitcoin.Base.Bytes.{IsByte, le_decode}
use native.Mathlib.Nat.{pow-suc}
use go_bitcoin.Script.Num.{neg64, magnitude_bytes, with_sign, encode_num}
use go_bitcoin.Script.Num.{decode_magnitude, sign_bit, decode_num}

low_byte : (n : ℕ) → bit_and n 0xff ≡ n % 256
low_byte n = bit_and_mask 8 n

below_sign : (n : ℕ) → bit_and n 0x7f ≡ n % 128
below_sign n = bit_and_mask 7 n

le_decode_cons : (b : ℕ) (bs : List ℕ) → le_decode (b ∷ bs) ≡ b + 256 * le_decode bs
unfolding le_decode
le_decode_cons b bs = refl

-- What with_sign returns for the bytes `bs`.
record Signed (negative : Bool) (bs : List ℕ) : Type 0 where
  first : ℕ
  others : List ℕ
  returns : with_sign negative bs ≡ ok (first ∷ others)
  magnitude : decode_magnitude (first ∷ others) ≡ le_decode bs
  sign : sign_bit (first ∷ others) ≡ negative

Signed-last : (negative : Bool) (b : ℕ) → b < 256 → Signed negative (b ∷ [])
unfolding with_sign decode_magnitude sign_bit le_decode
Signed-last negative b h = elim (Bool-cases (ltb b 128)) [
  | inl low ↦ elim (Bool-cases negative) [
    | inl neg ↦ record {
      first = b + 128;
      others = [];
      returns = ground (arith, byte-and-0x80 b, byte-or-0x80 b);
      magnitude = ground (arith, below_sign (b + 128));
      sign = ground (arith, byte-and-0x80 (b + 128));
    }
    | inr pos ↦ record {
      first = b;
      others = [];
      returns = ground (arith, byte-and-0x80 b);
      magnitude = ground (arith, below_sign b);
      sign = ground (arith, byte-and-0x80 b);
    }
  ]
  | inr high ↦ record {
    first = b;
    others = (if negative then 0x80 else 0x00) ∷ [];
    returns = ground (arith, byte-and-0x80 b);
    magnitude = ground (arith, bit_or_fields 8 0 b);
    sign = ground arith;
  }
]

Signed-cons :
    (negative : Bool) (b c : ℕ) (bs : List ℕ)
    → b < 256
    → le_decode (c ∷ bs) < 2 ^ 56
    → Signed negative (c ∷ bs)
    → Signed negative (b ∷ c ∷ bs)
unfolding with_sign decode_magnitude sign_bit
Signed-cons negative b c bs h fits s = record {
  first = b;
  others = s.first ∷ s.others;
  returns = rw s.returns refl;
  magnitude =
      rw s.magnitude
        (ground (arith, bit_or_fields 8 (le_decode (c ∷ bs)) b, le_decode_cons b (c ∷ bs)));
  sign = s.sign;
}

Signed-bytes :
    (negative : Bool) (b : ℕ) (bs : List ℕ)
    → All IsByte (b ∷ bs)
    → le_decode (b ∷ bs) < 2 ^ 64
    → Signed negative (b ∷ bs)
Signed-bytes negative b [] (h, hs) fits = Signed-last negative b h
Signed-bytes negative b (c ∷ bs) (h, hs) fits =
    let split = le_decode_cons b (c ∷ bs) in
    Signed-cons negative b c bs h (omega arith) (Signed-bytes negative c bs hs (omega arith))

le_decode-magnitude_bytes :
    (fuel n : ℕ)
    → n < 256 ^ fuel
    → (le_decode (magnitude_bytes fuel n) ≡ n) × All IsByte (magnitude_bytes fuel n)
unfolding magnitude_bytes le_decode
le_decode-magnitude_bytes zero n h = omega arith
le_decode-magnitude_bytes (suc fuel) n h =
    ground (arith, pow-suc 256 fuel, low_byte n, le_decode-magnitude_bytes fuel (n / 256))

Signed-nonzero :
    (negative : Bool) (n : ℕ) (bs : List ℕ)
    → 0 < n
    → n < 2 ^ 64
    → le_decode bs ≡ n
    → All IsByte bs
    → Signed negative bs
Signed-nonzero negative n [] pos fits e h = absurd (unfold le_decode in omega arith)
Signed-nonzero negative n (b ∷ bs) pos fits e h = Signed-bytes negative b bs h (omega arith)

-- The sign and the magnitude come back from the bytes of a magnitude that is not 0.
decoded_magnitude :
    (negative : Bool) (n : ℕ)
    → 0 < n
    → n < 2 ^ 64
    → (d : List ℕ) × (with_sign negative (magnitude_bytes 8 n) ≡ ok d)
      × (decode_num d ≡ (if negative then neg64 n else n))
unfolding decode_num
decoded_magnitude negative n pos fits =
    let (value, bytes) = le_decode-magnitude_bytes 8 n fits in
    let s = Signed-nonzero negative n (magnitude_bytes 8 n) pos fits value bytes in
    (s.first ∷ s.others, s.returns, rw (s.sign, s.magnitude, value))

encode_num_pos : (n : ℕ) → 0 < n → n < 2 ^ 63 → encode_num n ≡ with_sign false (magnitude_bytes 8 n)
unfolding encode_num
encode_num_pos n pos fits = ground arith

encode_num_neg :
    (n : ℕ)
    → 2 ^ 63 < n
    → n < 2 ^ 64
    → encode_num n ≡ with_sign true (magnitude_bytes 8 (2 ^ 64 - n))
unfolding encode_num
encode_num_neg n low fits = ground arith

encode_num-min : encode_num (2 ^ 63) ≡ panic
unfolding encode_num with_sign
encode_num-min = refl

encode_num-zero : encode_num 0 ≡ ok []
unfolding encode_num
encode_num-zero = refl

decode_num-nil : decode_num [] ≡ 0
unfolding decode_num sign_bit decode_magnitude
decode_num-nil = refl

-- Of the int64 values, every one but -2^63 is encoded, and DecodeNum gives it back.
pub decode_num-encode_num :
    (n : ℕ) → n < 2 ^ 64 → n ≢ 2 ^ 63 → (d : List ℕ) × (encode_num n ≡ ok d) × (decode_num d ≡ n)
decode_num-encode_num n fits ne = elim (Bool-cases (n == 0)) [
  | inl nil ↦ let z : n ≡ 0 = ground arith in ([], rw z encode_num-zero, rw z decode_num-nil)
  | inr some_n ↦ elim (Bool-cases (ltb n (2 ^ 63))) [
    | inl pos ↦
        let (d, e, v) = decoded_magnitude false n (ground arith) fits in
        (d, encode_num_pos n (ground arith) (ground arith) ∙ e, v)
    | inr neg ↦
        let (d, e, v) = decoded_magnitude true (2 ^ 64 - n) (omega arith) (ground arith) in
        (d, encode_num_neg n (ground arith) fits ∙ e, v ∙ ground arith)
  ]
]

-- Of the int64 values, EncodeNum panics at -2^63 and at no other.
pub encode_num_panics_iff : (n : ℕ) → n < 2 ^ 64 → (encode_num n ≡ panic) ↔ (n ≡ 2 ^ 63)
encode_num_panics_iff n fits = (only_min, λ e. rw e encode_num-min)
  where
    only_min : encode_num n ≡ panic → n ≡ 2 ^ 63
    only_min e = elim (Bool-cases (n == 2 ^ 63)) [
      | inl y ↦ ground arith
      | inr n' ↦ let (d, e', v) = decode_num-encode_num n fits (λ q. ground arith) in cc
    ]
