-- ===== src/Encoding/BitStream/Reading.antt =====
-- Bits that a stream shows from its position on, and what the readers make of them.
use go_bitcoin.Base.{
  ℕ, zero, suc, ◌+◌, ◌-◌, ◌*◌, ◌/◌, ◌%◌, ◌^◌, ◌≤◌, ◌<◌, bit_and, bit_or, Bool, false, List, [], ◌∷◌,
  ◌++◌,
}
use go_bitcoin.Base.{
  ◌==◌, leb, if◌then◌else◌, length, length-append, append_assoc, ok, ◌≡◌, refl, sym, ap, ap₂, subst,
  ◌∙◌, arith,
}
use go_bitcoin.Base.Bits.{bit_or_fields, bit_and_mask}
use go_bitcoin.Encoding.BitStream.{BitStream, stream, byte_at, bit_value, read_bit, read_bits}
use go_bitcoin.Encoding.BitStream.Layout.{high, tested_bit}
use native.Mathlib.Nat.{
  pow-suc, one-le-pow, mod-lt, div-add-mod', mul-add-mod_self_right, mod-eq_of_lt, mul-le-mul_left,
}

-- The stream one bit further
abbrev pub advanced : BitStream → BitStream
advanced s =
    if leb 8 (s.bit_index + 1)
    then stream s.buffer (s.byte_index + 1) 0
    else stream s.buffer s.byte_index (s.bit_index + 1)

abbrev pub Shows : List Bool → BitStream → Type 0
Shows [] s = Unit
Shows (b ∷ bits) s =
    ((byte : ℕ) × (byte_at s.buffer s.byte_index ≡ ok byte)
      × ((if bit_and byte (2 ^ (7 - s.bit_index)) == 0 then 0x00 else 0x01) ≡ bit_value b))
    × Shows bits (advanced s)

pub read_bit-Shows :
    (b : Bool) (bits : List Bool) (s : BitStream)
    → Shows (b ∷ bits) s
    → read_bit s ≡ ok (bit_value b, advanced s)
unfolding read_bit
read_bit-Shows b bits s ((byte, found, tested), more) = rw (found, tested) refl

-- The number so far, and the bits that are read behind it
abbrev pub joined : ℕ → List Bool → ℕ
joined n [] = n
joined n (b ∷ bits) = joined (bit_or (n * 2 % 2 ^ 64) (bit_value b)) bits

pub read_bits-Shows :
    (bits rest : List Bool) (n : ℕ) (s : BitStream)
    → Shows (bits ++ rest) s
    → (s' : BitStream) × (read_bits (length bits) n s ≡ ok (joined n bits, s')) × Shows rest s'
unfolding read_bits
read_bits-Shows [] rest n s h = (s, refl, h)
read_bits-Shows (b ∷ bits) rest n s (shown, h) =
    let (s', read, more) =
      read_bits-Shows bits rest (bit_or (n * 2 % 2 ^ 64) (bit_value b)) (advanced s) h in
    (s', rw (read_bit-Shows b (bits ++ rest) s (shown, h)) read, more)

-- The bits of a number below the `k`-th, as WriteBitsBigEndian takes them out
abbrev pub low_bits : ℕ → ℕ → List Bool
low_bits x zero = []
low_bits x (suc i) = (bit_and (x / 2 ^ i) 1 == 1) ∷ low_bits x i

pub length-low_bits : (x k : ℕ) → length (low_bits x k) ≡ k
length-low_bits x zero = refl
length-low_bits x (suc k) = ap suc (length-low_bits x k)

bit_value_mod : (y : ℕ) → bit_value (bit_and y 1 == 1) ≡ y % 2
bit_value_mod y = ground (arith, bit_and_mask 1 y)

mod_double : (x w : ℕ) → 1 ≤ w → x % (w * 2) ≡ x / w % 2 * w + x % w
mod_double x w h =
    let d = x / w in
    let low : x % w < w = mod-lt x h in
    let small : d % 2 * w + x % w < w * 2 = below (d % 2) w (x % w) (omega arith) low in
    let parts : x ≡ d / 2 * (w * 2) + (d % 2 * w + x % w) =
      sym (div-add-mod' x w)
      ∙ ap (λ n. n * w + x % w) (sym (div-add-mod' d 2))
      ∙ regroup (d / 2) (d % 2) w (x % w) in
    ap (λ n. n % (w * 2)) parts
    ∙ mul-add-mod_self_right (d / 2) (w * 2) (d % 2 * w + x % w)
    ∙ mod-eq_of_lt small
  where
    below : (b w r : ℕ) → b < 2 → r < w → b * w + r < w * 2
    below zero w r h k = omega arith
    below (suc zero) w r h k = omega arith
    below (suc (suc b)) w r h k = absurd (omega arith)

    regroup : (q b w r : ℕ) → (q * 2 + b) * w + r ≡ q * (w * 2) + (b * w + r)
    regroup q b w r = grind arith

room_one : (n w : ℕ) → 1 ≤ w → (n + 1) * (w * 2) ≤ 2 ^ 63 → n < 2 ^ 63
room_one n w p h = omega (arith, mul-le-mul_left (n + 1) p, h)

room : (n bit w : ℕ) → bit < 2 → (n + 1) * (w * 2) ≤ 2 ^ 63 → (n * 2 + bit + 1) * w ≤ 2 ^ 63
room n zero w h k = grind arith
room n (suc zero) w h k = grind arith
room n (suc (suc bit)) w h k = absurd (omega arith)

weigh : (n bit w r : ℕ) → (n * 2 + bit) * w + r ≡ n * (w * 2) + (bit * w + r)
weigh n bit w r = grind arith

pub joined-low_bits :
    (x k n : ℕ) → (n + 1) * 2 ^ k ≤ 2 ^ 63 → joined n (low_bits x k) ≡ n * 2 ^ k + x % 2 ^ k
joined-low_bits x zero n h = ground arith
joined-low_bits x (suc k) n h =
    let bit = bit_value (bit_and (x / 2 ^ k) 1 == 1) in
    let w = 2 ^ k in
    let is_digit : bit ≡ x / w % 2 = bit_value_mod (x / w) in
    let bit_small : bit < 2 = omega arith in
    let positive : 1 ≤ w = one-le-pow k 2 (omega arith) in
    let h' : (n + 1) * (w * 2) ≤ 2 ^ 63 = subst (λ m. (n + 1) * m ≤ 2 ^ 63) (pow-suc 2 k) h in
    let kept : n * 2 % 2 ^ 64 ≡ n * 2 = omega (arith, room_one n w positive h') in
    let sum : bit_or (n * 2 % 2 ^ 64) bit ≡ n * 2 + bit =
      ap (λ m. bit_or m bit) kept ∙ bit_or_fields 1 n bit bit_small in
    ap (λ m. joined m (low_bits x k)) sum
    ∙ joined-low_bits x k (n * 2 + bit) (room n bit w bit_small h')
    ∙ weigh n bit w (x % w)
    ∙ ap₂ (λ (m r : ℕ). n * m + r) (sym (pow-suc 2 k))
        (ap (λ b. b * w + x % w) is_digit
          ∙ sym (mod_double x w positive)
          ∙ ap (λ m. x % m) (sym (pow-suc 2 k)))

-- A whole byte, and what is shown behind it
pub Shows-octet :
    (buffer : List ℕ) (i : ℕ) (pre post rest : List Bool) (b : Bool)
    → byte_at buffer i ≡ ok (high 8 (pre ++ (b ∷ post)))
    → length pre + suc (length post) ≡ 8
    → Shows rest (stream buffer (i + 1) 0)
    → Shows ((b ∷ post) ++ rest) (stream buffer i (length pre))
Shows-octet buffer i pre [] rest b found full h =
    let seven : length pre ≡ 7 = omega arith in
    (
      (high 8 (pre ++ (b ∷ [])), found, tested_bit pre b [] (length pre) refl (omega arith)),
      subst (λ j. Shows rest (advanced (stream buffer i j))) (sym seven) h,
    )
Shows-octet buffer i pre (b' ∷ post) rest b found full h =
    let next = pre ++ (b ∷ []) in
    let len : length next ≡ length pre + 1 = length-append pre (b ∷ []) in
    let inside : leb 8 (length pre + 1) ≡ false = ground arith in
    let place : advanced (stream buffer i (length pre)) ≡ stream buffer i (length next) =
      rw (inside, len) refl in
    let found' : byte_at buffer i ≡ ok (high 8 (next ++ (b' ∷ post))) =
      found ∙ ap (λ l. ok (high 8 l)) (sym (append_assoc pre (b ∷ []) (b' ∷ post))) in
    (
      (
        high 8 (pre ++ (b ∷ b' ∷ post)),
        found,
        tested_bit pre b (b' ∷ post) (length pre) refl (omega arith),
      ),
      subst (Shows ((b' ∷ post) ++ rest)) (sym place)
          (Shows-octet buffer i next post rest b' found' (omega arith) h),
    )

-- A byte that is filled in part
pub Shows-partial :
    (buffer : List ℕ) (i : ℕ) (pre post : List Bool)
    → byte_at buffer i ≡ ok (high 8 (pre ++ post))
    → length pre + length post < 8
    → Shows post (stream buffer i (length pre))
Shows-partial buffer i pre [] found small = tt
Shows-partial buffer i pre (b ∷ post) found small =
    let next = pre ++ (b ∷ []) in
    let len : length next ≡ length pre + 1 = length-append pre (b ∷ []) in
    let inside : leb 8 (length pre + 1) ≡ false = ground arith in
    let place : advanced (stream buffer i (length pre)) ≡ stream buffer i (length next) =
      rw (inside, len) refl in
    let found' : byte_at buffer i ≡ ok (high 8 (next ++ post)) =
      found ∙ ap (λ l. ok (high 8 l)) (sym (append_assoc pre (b ∷ []) post)) in
    (
      (high 8 (pre ++ (b ∷ post)), found, tested_bit pre b post (length pre) refl (omega arith)),
      subst (Shows post) (sym place) (Shows-partial buffer i next post found' (omega arith)),
    )
