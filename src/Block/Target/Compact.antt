-- ===== src/Block/Target/Compact.antt =====
-- The compact form of a target and back.
use go_bitcoin.Base.{ℕ, zero, suc, ◌+◌, ◌-◌, ◌*◌, ◌/◌, ◌%◌, ◌^◌, ◌≤◌, ◌<◌, bit_or, arith}
use go_bitcoin.Base.{List, [], ◌∷◌, ◌++◌, reverse, length, All, ltb, leb, if◌then◌else◌}
use go_bitcoin.Base.{lt→ltb, false, Bool-cases, inl, inr, ◌==◌, All-append, ◌≡◌, refl, sym, ap, ◌∙◌}
use go_bitcoin.Base.Bits.{bit_or_fields, bit_and_mask}
use go_bitcoin.Base.Bytes.{IsByte, le_decode}
use go_bitcoin.Base.BigInt.{to_bytes, NoTopZero, le_digits-le_decode, length-reverse}
use go_bitcoin.Block.Target.{bits_to_target, target_to_bits, unsigned_bytes, coefficient}
use mathlib.Core.List.{reverse-append}
use native.Mathlib.Nat.{pow-suc}

pub not_lt→ltb : (a b : ℕ) → b ≤ a → ltb a b ≡ false
not_lt→ltb a b h = ground arith

zeros : ℕ → List ℕ
zeros zero = []
zeros (suc k) = 0 ∷ zeros k

length-zeros : (k : ℕ) → length (zeros k) ≡ k
unfolding zeros
length-zeros zero = refl
length-zeros (suc k) = ap suc (length-zeros k)

zeros-IsByte : (k : ℕ) → All IsByte (zeros k)
unfolding zeros
zeros-IsByte zero = tt
zeros-IsByte (suc k) = (omega arith, zeros-IsByte k)

NoTopZero-zeros : (k b : ℕ) (bs : List ℕ) → NoTopZero (b ∷ bs) → NoTopZero (zeros k ++ (b ∷ bs))
unfolding zeros
NoTopZero-zeros zero b bs h = h
NoTopZero-zeros (suc zero) b bs h = h
NoTopZero-zeros (suc (suc k)) b bs h = NoTopZero-zeros (suc k) b bs h

byte_pow : (k : ℕ) → 2 ^ (8 * suc k) ≡ 256 * 2 ^ (8 * k)
byte_pow k =
    let e : 8 * suc k ≡ suc (suc (suc (suc (suc (suc (suc (suc (8 * k)))))))) = omega arith in
    ap (λ (t : ℕ). 2 ^ t) e
    ∙ omega (
      arith,
      pow-suc 2 (8 * k),
      pow-suc 2 (suc (8 * k)),
      pow-suc 2 (suc (suc (8 * k))),
      pow-suc 2 (suc (suc (suc (8 * k)))),
      pow-suc 2 (suc (suc (suc (suc (8 * k))))),
      pow-suc 2 (suc (suc (suc (suc (suc (8 * k)))))),
      pow-suc 2 (suc (suc (suc (suc (suc (suc (8 * k))))))),
      pow-suc 2 (suc (suc (suc (suc (suc (suc (suc (8 * k)))))))),
    )

le_decode-zeros : (k : ℕ) (bs : List ℕ) → le_decode (zeros k ++ bs) ≡ le_decode bs * 2 ^ (8 * k)
unfolding zeros le_decode
le_decode-zeros zero bs = omega arith
le_decode-zeros (suc k) bs =
    omega (arith, le_decode-zeros k bs, ap (λ (t : ℕ). le_decode bs * t) (byte_pow k))

-- The bytes of a number that is shifted by whole bytes.
to_bytes-shifted :
    (k b : ℕ) (bs : List ℕ)
    → All IsByte (b ∷ bs)
    → NoTopZero (b ∷ bs)
    → to_bytes (le_decode (b ∷ bs) * 2 ^ (8 * k)) ≡ reverse (b ∷ bs) ++ reverse (zeros k)
unfolding to_bytes
to_bytes-shifted k b bs h top =
    let digits = zeros k ++ (b ∷ bs) in
    rw
      (
        ← le_decode-zeros k (b ∷ bs),
        le_digits-le_decode (le_decode digits) digits
            (All-append IsByte (zeros k) (b ∷ bs) (zeros-IsByte k) h) (NoTopZero-zeros k b bs top)
            (omega arith),
      )
      (reverse-append (zeros k) (b ∷ bs))

fields_three :
    (b0 b1 b2 : ℕ)
    → b0 < 256
    → b1 < 256
    → b2 < 256
    → bit_or (bit_or (bit_or 0 (b0 * 2 ^ 16)) (b1 * 2 ^ 8)) b2 ≡ b0 * 2 ^ 16 + b1 * 2 ^ 8 + b2
fields_three b0 b1 b2 h0 h1 h2 =
    let first : bit_or 0 (b0 * 2 ^ 16) ≡ b0 * 2 ^ 16 =
      bit_or_fields 24 0 (b0 * 2 ^ 16) (omega arith) ∙ omega arith in
    let regroup : b0 * 2 ^ 16 + b1 * 2 ^ 8 ≡ (b0 * 2 ^ 8 + b1) * 2 ^ 8 = omega arith in
    rw (first, bit_or_fields 16 b0 (b1 * 2 ^ 8) (omega arith), regroup)
      (bit_or_fields 8 (b0 * 2 ^ 8 + b1) b2 (omega arith))

pack_fields :
    (k b0 b1 b2 n : ℕ)
    → n ≡ k
    → k + 3 < 256
    → b0 < 256
    → b1 < 256
    → b2 < 256
    → bit_or
        (suc (suc (suc n)) % 2 ^ 32 * 2 ^ 24 % 2 ^ 32)
        (bit_or (bit_or (bit_or 0 (b0 * 2 ^ 16)) (b1 * 2 ^ 8)) b2)
      ≡ (k + 3) * 2 ^ 24 + (b0 * 2 ^ 16 + b1 * 2 ^ 8 + b2)
pack_fields k b0 b1 b2 n e hk h0 h1 h2 =
    let exponent : suc (suc (suc n)) % 2 ^ 32 * 2 ^ 24 % 2 ^ 32 ≡ (k + 3) * 2 ^ 24 = omega arith in
    rw (exponent, fields_three b0 b1 b2 h0 h1 h2)
      (bit_or_fields 24 (k + 3) (b0 * 2 ^ 16 + b1 * 2 ^ 8 + b2) (omega arith))

module _ (k b0 b1 b2 : ℕ) (hk : k + 3 < 256) (h1 : b1 < 256) (h2 : b2 < 256) (t : ℕ) where
  count : length (reverse (zeros k)) ≡ k
  count = length-reverse (zeros k) ∙ length-zeros k

  pack_three :
      0 < b0
      → b0 < 128
      → to_bytes t ≡ b0 ∷ b1 ∷ b2 ∷ reverse (zeros k)
      → target_to_bits t ≡ (k + 3) * 2 ^ 24 + (b0 * 2 ^ 16 + b1 * 2 ^ 8 + b2)
  unfolding target_to_bits unsigned_bytes coefficient
  pack_three p h0 e =
      rw (e, not_lt→ltb 0x7f b0 (omega arith))
        (pack_fields k b0 b1 b2 (length (reverse (zeros k))) count hk (omega arith) h1 h2)

  pack_two :
      128 ≤ b1
      → to_bytes t ≡ b1 ∷ b2 ∷ reverse (zeros k)
      → target_to_bits t ≡ (k + 3) * 2 ^ 24 + (0 * 2 ^ 16 + b1 * 2 ^ 8 + b2)
  unfolding target_to_bits unsigned_bytes coefficient
  pack_two p e =
      rw (e, lt→ltb 0x7f b1 (omega arith))
        (pack_fields k 0 b1 b2 (length (reverse (zeros k))) count hk (omega arith) h1 h2)

-- A coefficient of `b0 b1 b2` shifted by `k` bytes is packed again, where its top bit is clear
-- and it could not be one byte shorter.
packed :
    (k b0 b1 b2 : ℕ)
    → k + 3 < 256
    → b0 < 128
    → b1 < 256
    → b2 < 256
    → 2 ^ 15 ≤ b0 * 2 ^ 16 + b1 * 2 ^ 8 + b2
    → target_to_bits ((b0 * 2 ^ 16 + b1 * 2 ^ 8 + b2) * 2 ^ (8 * k))
      ≡ (k + 3) * 2 ^ 24 + (b0 * 2 ^ 16 + b1 * 2 ^ 8 + b2)
unfolding le_decode
packed k zero b1 b2 hk h0 h1 h2 h =
    let value : zero * 2 ^ 16 + b1 * 2 ^ 8 + b2 ≡ le_decode (b2 ∷ b1 ∷ []) = omega arith in
    pack_two k 0 b1 b2 hk h1 h2 _ (omega arith) (
      ap (λ (c : ℕ). to_bytes (c * 2 ^ (8 * k))) value
      ∙ to_bytes-shifted k b2 (b1 ∷ []) (h2, (h1, tt)) (omega arith))
packed k (suc b) b1 b2 hk h0 h1 h2 h =
    let value : suc b * 2 ^ 16 + b1 * 2 ^ 8 + b2 ≡ le_decode (b2 ∷ b1 ∷ suc b ∷ []) = omega arith in
    pack_three k (suc b) b1 b2 hk h1 h2 _ (omega arith) h0 (
      ap (λ (c : ℕ). to_bytes (c * 2 ^ (8 * k))) value
      ∙ to_bytes-shifted k b2 (b1 ∷ suc b ∷ []) (h2, (h1, (omega arith, tt))) (omega arith))

shifted_left :
    (c e : ℕ)
    → 3 ≤ e
    → (if leb e 3 then c / 2 ^ (8 * (3 - e)) else c * 2 ^ (8 * (e - 3))) ≡ c * 2 ^ (8 * (e - 3))
shifted_left c e h = elim (Bool-cases (e == 3)) [
  | inl y ↦ let eq : e ≡ 3 = ground arith in rw (eq) (omega arith)
  | inr n ↦ let gt : leb e 3 ≡ false = ground arith in rw (gt)
]

-- TargetToBits gives back the compact form that bitsToTarget has read, where the exponent is at least
-- 3 and the coefficient has its sign bit clear and fills its upper bytes.
pub target_to_bits-bits_to_target :
    (bits : ℕ)
    → bits < 2 ^ 32
    → 3 ≤ bits / 2 ^ 24
    → 2 ^ 15 ≤ bits % 2 ^ 24
    → bits % 2 ^ 24 < 2 ^ 23
    → target_to_bits (bits_to_target bits) ≡ bits
unfolding bits_to_target
target_to_bits-bits_to_target bits fits e lo hi =
    let c = bits % 2 ^ 24 in
    let k = bits / 2 ^ 24 - 3 in
    let b0 = c / 2 ^ 16 in
    let b1 = c / 2 ^ 8 % 256 in
    let b2 = c % 256 in
    let split : b0 * 2 ^ 16 + b1 * 2 ^ 8 + b2 ≡ c = omega arith in
    let again =
      packed k b0 b1 b2 (omega arith) (omega arith) (omega arith) (omega arith) (omega arith) in
    rw (bit_and_mask 24 bits, shifted_left c (bits / 2 ^ 24) e)
      (ap (λ (x : ℕ). target_to_bits (x * 2 ^ (8 * k))) (sym split) ∙ again ∙ omega arith)
