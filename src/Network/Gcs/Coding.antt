-- ===== src/Network/Gcs/Coding.antt =====
-- Golomb codes, written and read back.
use go_bitcoin.Base.{
  ℕ, zero, suc, ◌+◌, ◌-◌, ◌*◌, ◌/◌, ◌%◌, ◌^◌, ◌≤◌, ◌<◌, Bool, true, false, List, [], ◌∷◌, ◌++◌,
  append-nil, append_assoc, All,
}
use go_bitcoin.Base.{
  ltb, leb, length, Bool-cases, inl, inr, Result, ok, ◌>>=◌, bind_in_steps, ◌≡◌, refl, sym, ap,
  subst, ◌∙◌, arith,
}
use go_bitcoin.Encoding.BitStream.{
  BitStream, stream, byte_at, write_bit, write_bits, read_bits, read_bits_big_endian,
}
use go_bitcoin.Encoding.BitStream.Reading.{
  Shows, advanced, read_bit-Shows, read_bits-Shows, low_bits, length-low_bits, joined,
  joined-low_bits,
}
use go_bitcoin.Encoding.BitStream.Writing.{Written}
use go_bitcoin.Encoding.BitStream.Finished.{write_all, write_bits_eq, write_all-Written}
use go_bitcoin.Network.Gcs.{write_ones, golomb_encode, read_ones, golomb_decode, encode_deltas}
use go_bitcoin.Network.Gcs.Sorting.{IsAscending}
use native.Mathlib.Nat.{div-add-mod', mod-eq_of_lt}

-- The code of a number: its quotient in ones, a zero, and its low bits
abbrev pub with_ones : ℕ → List Bool → List Bool
with_ones zero bits = bits
with_ones (suc q) bits = true ∷ with_ones q bits

abbrev pub code : ℕ → ℕ → List Bool → List Bool
code p x rest = with_ones (x / 2 ^ p) (false ∷ (low_bits x p ++ rest))

write_ones_eq :
    (q : ℕ) (bits : List Bool) (s : BitStream)
    → (write_ones q s >>= write_all bits) ≡ write_all (with_ones q bits) s
unfolding write_ones
write_ones_eq zero bits s = refl
write_ones_eq (suc q) bits s = sym (
    bind_in_steps (write_bit true s) (write_all (with_ones q bits)) (write_ones q) (write_all bits)
      λ s'. sym (write_ones_eq q bits s'))

golomb_encode_eq :
    (p x : ℕ) (s : BitStream)
    → x < 2 ^ 63
    → golomb_encode s x p ≡ write_all (with_ones (x / 2 ^ p) (false ∷ low_bits x p)) s
unfolding golomb_encode
golomb_encode_eq p x s h =
    let small : ltb x (2 ^ 63) ≡ true = ground arith in
    let steps : (s1 : BitStream)
        → (write_bit false s1 >>= write_bits x p) ≡ write_all (false ∷ low_bits x p) s1 =
      λ s1.
        ap (λ (k : BitStream → Result BitStream). write_bit false s1 >>= k)
          (λ i s2. write_bits_eq x p s2 i) in
    rw small (
      ap (λ (k : BitStream → Result BitStream). write_ones (x / 2 ^ p) s >>= k) (λ i s1. steps s1 i)
      ∙ write_ones_eq (x / 2 ^ p) (false ∷ low_bits x p) s)

byte_at-lt : (bs : List ℕ) (i b : ℕ) → byte_at bs i ≡ ok b → i < length bs
unfolding byte_at
byte_at-lt [] i b e = cc
byte_at-lt (x ∷ bs) zero b e = omega arith
byte_at-lt (x ∷ bs) (suc i) b e = omega (arith, byte_at-lt bs i b e)

-- No more bits are shown than a stream holds from its position on.
Shows-length_inside :
    (b : Bool) (bits : List Bool) (s : BitStream)
    → s.bit_index < 8
    → Shows (b ∷ bits) s
    → 8 * s.byte_index + s.bit_index + 1 + length bits ≤ 8 * length s.buffer
Shows-length_inside b [] s h ((byte, found, tested), shown) =
    omega (arith, byte_at-lt s.buffer s.byte_index byte found)
Shows-length_inside b (b' ∷ bits) s h (bit, shown) = elim (Bool-cases (leb 8 (s.bit_index + 1))) [
  | inl e ↦
      let place : advanced s ≡ stream s.buffer (s.byte_index + 1) 0 = rw e refl in
      let shown' : Shows (b' ∷ bits) (stream s.buffer (s.byte_index + 1) 0) =
        subst (Shows (b' ∷ bits)) place shown in
      omega (
        arith,
        Shows-length_inside b' bits (stream s.buffer (s.byte_index + 1) 0) (omega arith) shown',
      )
  | inr e ↦
      let inside : s.bit_index + 1 < 8 = ground arith in
      let place : advanced s ≡ stream s.buffer s.byte_index (s.bit_index + 1) = rw e refl in
      let shown' : Shows (b' ∷ bits) (stream s.buffer s.byte_index (s.bit_index + 1)) =
        subst (Shows (b' ∷ bits)) place shown in
      omega (
        arith,
        Shows-length_inside b' bits (stream s.buffer s.byte_index (s.bit_index + 1)) inside shown',
      )
]

Shows-length :
    (bits : List Bool) (s : BitStream) → Shows bits s → length bits ≤ 8 * length s.buffer + 1
Shows-length [] s shown = omega arith
Shows-length (b ∷ []) s shown = omega arith
Shows-length (b ∷ b' ∷ bits) s (bit, shown) = elim (Bool-cases (leb 8 (s.bit_index + 1))) [
  | inl e ↦
      let place : advanced s ≡ stream s.buffer (s.byte_index + 1) 0 = rw e refl in
      let shown' : Shows (b' ∷ bits) (stream s.buffer (s.byte_index + 1) 0) =
        subst (Shows (b' ∷ bits)) place shown in
      omega (
        arith,
        Shows-length_inside b' bits (stream s.buffer (s.byte_index + 1) 0) (omega arith) shown',
      )
  | inr e ↦ omega (arith, Shows-length_inside b (b' ∷ bits) s (below (s.bit_index) e) (bit, shown))
]
  where
    below : (j : ℕ) → leb 8 (j + 1) ≡ false → j < 8
    below j e = ground arith

length-with_ones : (q : ℕ) (bits : List Bool) → length (with_ones q bits) ≡ q + length bits
length-with_ones zero bits = omega arith
length-with_ones (suc q) bits = omega (arith, length-with_ones q bits)

read_ones-Shows :
    (fuel q n : ℕ) (bits : List Bool) (s : BitStream)
    → q < fuel
    → Shows (with_ones q (false ∷ bits)) s
    → (s' : BitStream) × (read_ones fuel n s ≡ ok (n + q, s')) × Shows bits s'
unfolding read_ones
read_ones-Shows zero q n bits s h shown = absurd (omega arith)
read_ones-Shows (suc fuel) zero n bits s h (bit, shown) =
    let unit : n ≡ n + 0 = omega arith in
    (
      advanced s,
      rw (read_bit-Shows false bits s (bit, shown)) (ap (λ m. ok (m, advanced s)) unit),
      shown,
    )
read_ones-Shows (suc fuel) (suc q) n bits s h (bit, shown) =
    let (s', read, more) = read_ones-Shows fuel q (suc n) bits (advanced s) (omega arith) shown in
    let shift : suc n + q ≡ n + suc q = omega arith in
    (
      s',
      rw (read_bit-Shows true (with_ones q (false ∷ bits)) s (bit, shown))
          (read ∙ ap (λ m. ok (m, s')) shift),
      more,
    )

regroup : (q w r : ℕ) → (0 + q) * w + (0 * w + r) ≡ q * w + r
regroup q w r = grind arith

-- The code of a number is read back as the number.
pub golomb_decode-Shows :
    (p x : ℕ) (rest : List Bool) (s : BitStream)
    → 2 ^ p ≤ 2 ^ 63
    → x < 2 ^ 63
    → Shows (code p x rest) s
    → (s' : BitStream) × (golomb_decode s p ≡ ok (x, s')) × Shows rest s'
unfolding golomb_decode read_bits_big_endian
golomb_decode-Shows p x rest s small h shown =
    let q = x / 2 ^ p in
    let low = low_bits x p in
    let bound = Shows-length (code p x rest) s shown in
    let len = length-with_ones q (false ∷ (low ++ rest)) in
    let (s1, ones, shown1) =
      read_ones-Shows (8 * length s.buffer + 1) q 0 (low ++ rest) s (omega (arith, bound, len))
        shown in
    let (s2, bits, shown2) = read_bits-Shows low rest 0 s1 shown1 in
    let value : joined 0 low ≡ 0 * 2 ^ p + x % 2 ^ p = joined-low_bits x p 0 (omega arith) in
    let low_read : read_bits_big_endian p s1 ≡ ok (joined 0 low, s2) =
      subst (λ k. read_bits k 0 s1 ≡ ok (joined 0 low, s2)) (length-low_bits x p) bits in
    let sum : (0 + q) * 2 ^ p + (0 * 2 ^ p + x % 2 ^ p) ≡ x =
      regroup q (2 ^ p) (x % 2 ^ p) ∙ div-add-mod' x (2 ^ p) in
    let total : ((0 + q) * 2 ^ p + joined 0 low) % 2 ^ 64 ≡ x =
      ap (λ l. ((0 + q) * 2 ^ p + l) % 2 ^ 64) value
      ∙ ap (λ n. n % 2 ^ 64) sum
      ∙ mod-eq_of_lt (omega arith) in
    (s2, rw (ones, low_read, total) refl, shown2)

-- The differences of ascending numbers, coded one behind the other
abbrev pub codes : ℕ → ℕ → List ℕ → List Bool
codes p last [] = []
codes p last (x ∷ xs) = code p (x - last) (codes p x xs)

with_ones-append :
    (q : ℕ) (bits more : List Bool) → with_ones q bits ++ more ≡ with_ones q (bits ++ more)
with_ones-append zero bits more = refl
with_ones-append (suc q) bits more = ap (λ l. true ∷ l) (with_ones-append q bits more)

pub encode_deltas-Written :
    (p last : ℕ) (xs : List ℕ) (before : List Bool) (s : BitStream)
    → IsAscending last xs
    → All (λ x. x < 2 ^ 63) xs
    → Written before s
    → (s' : BitStream) × (encode_deltas p last xs s ≡ ok s')
      × Written (before ++ codes p last xs) s'
unfolding encode_deltas
encode_deltas-Written p last [] before s a h w =
    (s, refl, subst (λ l. Written l s) (sym (append-nil before)) w)
encode_deltas-Written p last (x ∷ xs) before s (le, a) (hx, hs) w =
    let d = x - last in
    let bits = with_ones (d / 2 ^ p) (false ∷ low_bits d p) in
    let no_wrap : (x + 2 ^ 64 - last) % 2 ^ 64 ≡ d = omega arith in
    let (s1, e1, w1) = write_all-Written before bits s w in
    let (s2, e2, w2) = encode_deltas-Written p x xs (before ++ bits) s1 a hs w1 in
    let joined_codes : (before ++ bits) ++ codes p x xs ≡ before ++ codes p last (x ∷ xs) =
      append_assoc before bits (codes p x xs)
      ∙ ap (λ l. before ++ l)
          (with_ones-append (d / 2 ^ p) (false ∷ low_bits d p) (codes p x xs)) in
    (
      s2,
      rw (no_wrap, golomb_encode_eq p d s (omega arith), e1) e2,
      subst (λ l. Written l s2) joined_codes w2,
    )
