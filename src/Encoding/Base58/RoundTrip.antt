-- ===== src/Encoding/Base58/RoundTrip.antt =====
-- DecodeBase58 reads back what EncodeBase58Checksum wrote.
use go_bitcoin.Base.{
  ℕ, zero, suc, ◌+◌, ◌-◌, ◌*◌, ◌/◌, ◌%◌, ◌≤◌, ◌<◌, List, [], ◌∷◌, ◌++◌, Option, none, some, ltb,
  ◌==◌,
}
use go_bitcoin.Base.{false, Bool-cases, inl, inr, length, length-append, length-take, take}
use go_bitcoin.Base.{take-append, drop-append, bytes_equal_self, All, All-append, reverse}
use go_bitcoin.Base.{ok, ◌≡◌, refl, ap, ◌∙◌, arith}
use mathlib.Core.List.{reverse-cons, reverse-reverse}
use go_bitcoin.Base.Bytes.{IsByte, le_decode}
use go_bitcoin.Base.Table.{same_below, same_below_sound}
use go_bitcoin.Base.BigInt.{
  to_bytes, set_bytes, le_digits, set_bytes-zero, NoTopZero, le_digits-le_decode,
}
use go_bitcoin.Encoding.Hash.{Hashes, hash256}
use go_bitcoin.Encoding.Base58.{alphabet, leading, repeated, encode_loop, encode_base58, get_index}
use go_bitcoin.Encoding.Base58.{
  decode_loop, without_version, encode_base58_checksum, checked, decode_base58,
}

-- The index that a digit's character is read as, 58 where it has none
index_or_base : Option ℕ → ℕ
index_or_base none = 58
index_or_base (some i) = i

index_or_base-some : (o : Option ℕ) (i : ℕ) → i < 58 → index_or_base o ≡ i → o ≡ some i
unfolding index_or_base
index_or_base-some none i h e = absurd (omega arith)
index_or_base-some (some j) i h e = ap some e

read_digit-eq : (d : ℕ) → d < 58 → get_index (alphabet d % 256) ≡ some d
unfolding alphabet get_index same_below index_or_base
read_digit-eq d h =
    index_or_base-some (get_index (alphabet d % 256)) d h
      (same_below_sound (λ x. index_or_base (get_index (alphabet x % 256))) (λ x. x) 58 d refl h)

encode_loop-zero : (fuel : ℕ) (rest : List ℕ) → encode_loop fuel 0 rest ≡ rest
unfolding encode_loop
encode_loop-zero zero rest = refl
encode_loop-zero (suc fuel) rest = refl

alphabet-ne_one : (d : ℕ) → 0 < d → d < 58 → (alphabet d == 49) ≡ false
unfolding alphabet
alphabet-ne_one d p h = ground arith

decode_loop-encode_loop :
    (fuel num : ℕ) (rest : List ℕ)
    → num ≤ fuel
    → decode_loop 0 (encode_loop fuel num rest) ≡ decode_loop num rest
unfolding encode_loop decode_loop
decode_loop-encode_loop zero num rest h = ap (λ n. decode_loop n rest) (omega arith)
decode_loop-encode_loop (suc fuel) num rest h = elim (Bool-cases (num == 0)) [
  | inl none_left ↦ rw none_left (ap (λ n. decode_loop n rest) (ground arith))
  | inr more ↦
      let positive : 0 < num = ground arith in
      let whole : num / 58 * 58 + num % 58 ≡ num = omega arith in
      rw
        (
          more,
          decode_loop-encode_loop fuel (num / 58) (alphabet (num % 58) ∷ rest) (omega arith),
          read_digit-eq (num % 58) (omega arith),
          whole,
        )
        refl
]

decode_loop-ones :
    (k : ℕ) (text : List ℕ) → decode_loop 0 (repeated 49 k ++ text) ≡ decode_loop 0 text
unfolding decode_loop repeated
decode_loop-ones zero text = refl
decode_loop-ones (suc k) text = unfold get_index in decode_loop-ones k text

leading-repeated : (c k : ℕ) (text : List ℕ) → leading c (repeated c k ++ text) ≡ k + leading c text
unfolding leading repeated
leading-repeated c zero text = omega arith
leading-repeated c (suc k) text = ground (arith, leading-repeated c k text)

-- The first digit of a number is not zero.
leading-ne : (c b : ℕ) (bs : List ℕ) → (b == c) ≡ false → leading c (b ∷ bs) ≡ 0
unfolding leading
leading-ne c b bs h = rw h refl

leading-encode_loop :
    (fuel num : ℕ) (rest : List ℕ)
    → num ≤ fuel
    → 0 < num
    → leading 49 (encode_loop fuel num rest) ≡ 0
unfolding encode_loop
leading-encode_loop zero num rest h p = absurd (omega arith)
leading-encode_loop (suc fuel) num rest h p =
    let more : (num == 0) ≡ false = ground arith in
    elim (Bool-cases (ltb num 58)) [
      | inl small ↦
          let digit : num < 58 = ground arith in
          let none_left : num / 58 ≡ 0 = omega arith in
          let whole : num % 58 ≡ num = omega arith in
          rw (more, none_left, encode_loop-zero fuel, whole)
            (leading-ne 49 (alphabet num) rest (alphabet-ne_one num p digit))
      | inr large ↦
          let wide : 58 ≤ num = ground arith in
          rw more (
            leading-encode_loop fuel (num / 58) (alphabet (num % 58) ∷ rest) (omega arith)
              (omega arith))
    ]

pub All-reverse : (bs : List ℕ) → All IsByte bs → All IsByte (reverse bs)
All-reverse [] h = tt
All-reverse (b ∷ bs) (hb, hs) =
    rw reverse-cons (All-append IsByte (reverse bs) (b ∷ []) (All-reverse bs hs) (hb, tt))

NoTopZero-append : (bs : List ℕ) (b : ℕ) → 0 < b → NoTopZero (bs ++ (b ∷ []))
NoTopZero-append [] b h = h
NoTopZero-append (c ∷ []) b h = h
NoTopZero-append (c ∷ d ∷ bs) b h = NoTopZero-append (d ∷ bs) b h

to_bytes-set_bytes :
    (b : ℕ) (bs : List ℕ) → All IsByte (b ∷ bs) → 0 < b → to_bytes (set_bytes (b ∷ bs)) ≡ b ∷ bs
unfolding to_bytes set_bytes
to_bytes-set_bytes b bs hs p =
    let top : NoTopZero (reverse (b ∷ bs)) = rw reverse-cons (NoTopZero-append (reverse bs) b p) in
    ap reverse (
      le_digits-le_decode (le_decode (reverse (b ∷ bs))) (reverse (b ∷ bs))
        (All-reverse (b ∷ bs) hs) top (omega arith))
    ∙ reverse-reverse (b ∷ bs)

-- Bytes are the zeros that lead them and the bytes of their number.
zeros-to_bytes :
    (bs : List ℕ) → All IsByte bs → repeated 0 (leading 0 bs) ++ to_bytes (set_bytes bs) ≡ bs
unfolding repeated leading
zeros-to_bytes [] hs = unfold to_bytes set_bytes le_decode le_digits in refl
zeros-to_bytes (zero ∷ bs) (hb, hs) = rw set_bytes-zero (ap (λ t. 0 ∷ t) (zeros-to_bytes bs hs))
zeros-to_bytes (suc b ∷ bs) hs =
    let other : (suc b == 0) ≡ false = ground arith in
    rw other (to_bytes-set_bytes (suc b) bs hs (omega arith))

leading_of_number : (num : ℕ) → leading 49 (encode_loop num num []) ≡ 0
leading_of_number zero = unfold encode_loop leading in refl
leading_of_number (suc n) = leading-encode_loop (suc n) (suc n) [] (omega arith) (omega arith)

leading-encode_base58 : (bs : List ℕ) → leading 49 (encode_base58 bs) ≡ leading 0 bs
unfolding encode_base58
leading-encode_base58 bs =
    leading-repeated 49 (leading 0 bs) (encode_loop (set_bytes bs) (set_bytes bs) [])
    ∙ omega (arith, leading_of_number (set_bytes bs))

decode_loop-encode_base58 : (bs : List ℕ) → decode_loop 0 (encode_base58 bs) ≡ ok (set_bytes bs)
unfolding encode_base58
decode_loop-encode_base58 bs =
    decode_loop-ones (leading 0 bs) (encode_loop (set_bytes bs) (set_bytes bs) [])
    ∙ decode_loop-encode_loop (set_bytes bs) (set_bytes bs) [] (omega arith)
    ∙ unfold decode_loop in refl

checked-append :
    (h : Hashes) (bs sum : List ℕ)
    → length sum ≡ 4
    → take 4 (hash256 h bs) ≡ sum
    → checked h (bs ++ sum) ≡ without_version bs
unfolding checked
checked-append h bs sum four e =
    let size : length (bs ++ sum) - 4 ≡ length bs = omega (arith, length-append bs sum) in
    let long : ltb (length (bs ++ sum)) 4 ≡ false = ground (arith, length-append bs sum) in
    rw (long, size, take-append bs sum, drop-append bs sum, e, bytes_equal_self sum) refl

length-checksum : (h : Hashes) (bs : List ℕ) → length (take 4 (hash256 h bs)) ≡ 4
unfolding hash256
length-checksum h bs = omega (arith, length-take 4 (hash256 h bs), h.length-sha256 (h.sha256 bs))

All-take : (k : ℕ) (bs : List ℕ) → All IsByte bs → All IsByte (take k bs)
All-take zero bs h = tt
All-take (suc k) [] h = tt
All-take (suc k) (b ∷ bs) (hb, hs) = (hb, All-take k bs hs)

-- Decoding what was encoded with its checksum gives the bytes behind the version.
pub decode_base58-encode_base58_checksum :
    (h : Hashes) (version : ℕ) (payload : List ℕ)
    → All IsByte (version ∷ payload)
    → All IsByte (hash256 h (version ∷ payload))
    → decode_base58 h (encode_base58_checksum h (version ∷ payload)) ≡ ok payload
unfolding decode_base58 encode_base58_checksum
decode_base58-encode_base58_checksum h version payload hs hd =
    let whole : List ℕ = (version ∷ payload) ++ take 4 (hash256 h (version ∷ payload)) in
    let bytes : All IsByte whole =
      All-append IsByte (version ∷ payload) (take 4 (hash256 h (version ∷ payload))) hs
        (All-take 4 (hash256 h (version ∷ payload)) hd) in
    rw
      (
        decode_loop-encode_base58 whole,
        leading-encode_base58 whole,
        zeros-to_bytes whole bytes,
        checked-append h (version ∷ payload) (take 4 (hash256 h (version ∷ payload)))
            (length-checksum h (version ∷ payload)) refl,
      )
      (unfold without_version in refl)
