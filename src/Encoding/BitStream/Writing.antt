-- ===== src/Encoding/BitStream/Writing.antt =====
-- Streams that bits have been written to, and the bytes they end in.
use go_bitcoin.Base.{
  ℕ, ◌+◌, ◌-◌, ◌*◌, ◌%◌, ◌^◌, ◌≤◌, ◌<◌, bit_or, Bool, true, false, List, [], ◌∷◌, ◌++◌, append-nil,
  append_assoc,
}
use go_bitcoin.Base.{
  ◌==◌, ltb, leb, length, length-append, All, Bool-cases, inl, inr, ok, ◌≡◌, refl, sym, ap, ◌∙◌,
  arith,
}
use native.Mathlib.Nat.{pow-le-pow_right, mod-eq_of_lt}
use go_bitcoin.Encoding.BitStream.{
  BitStream, stream, new_bit_stream, byte_at, set_byte, extended, bit_value, write_bit,
}
use go_bitcoin.Encoding.BitStream.Layout.{high, bit_or-high}

-- Whole bytes of eight bits, and what comes behind them
abbrev pub packed : List (List Bool) → List ℕ → List ℕ
packed [] tail = tail
packed (o ∷ front) tail = high 8 o ∷ packed front tail

abbrev pub all_bits : List (List Bool) → List Bool → List Bool
all_bits [] cur = cur
all_bits (o ∷ front) cur = o ++ all_bits front cur

-- The stream with whole bytes and the bits of the byte that is being filled
abbrev pub layout : List (List Bool) → List Bool → BitStream
layout front cur = stream (packed front (high 8 cur ∷ [])) (length front) (length cur)

pub byte_at-packed :
    (front : List (List Bool)) (b : ℕ) (more : List ℕ)
    → byte_at (packed front (b ∷ more)) (length front) ≡ ok b
unfolding byte_at
byte_at-packed [] b more = refl
byte_at-packed (o ∷ front) b more = byte_at-packed front b more

set_byte-packed :
    (front : List (List Bool)) (b v : ℕ)
    → set_byte (packed front (b ∷ [])) (length front) v ≡ packed front (v ∷ [])
unfolding set_byte
set_byte-packed [] b v = refl
set_byte-packed (o ∷ front) b v = ap (λ l. high 8 o ∷ l) (set_byte-packed front b v)

pub length-packed :
    (front : List (List Bool)) (tail : List ℕ)
    → length (packed front tail) ≡ length front + length tail
length-packed [] tail = omega arith
length-packed (o ∷ front) tail = omega (arith, length-packed front tail)

pub packed-append :
    (front : List (List Bool)) (o : List Bool) (tail : List ℕ)
    → packed (front ++ (o ∷ [])) tail ≡ packed front (high 8 o ∷ tail)
packed-append [] o tail = refl
packed-append (p ∷ front) o tail = ap (λ l. high 8 p ∷ l) (packed-append front o tail)

packed_behind :
    (front : List (List Bool)) (a b : ℕ)
    → packed front (a ∷ []) ++ (b ∷ []) ≡ packed front (a ∷ b ∷ [])
packed_behind [] a b = refl
packed_behind (o ∷ front) a b = ap (λ l. high 8 o ∷ l) (packed_behind front a b)

all_bits-append :
    (front : List (List Bool)) (o cur : List Bool)
    → all_bits (front ++ (o ∷ [])) cur ≡ all_bits front (o ++ cur)
all_bits-append [] o cur = refl
all_bits-append (p ∷ front) o cur = ap (λ l. p ++ l) (all_bits-append front o cur)

all_bits_behind :
    (front : List (List Bool)) (cur more : List Bool)
    → all_bits front cur ++ more ≡ all_bits front (cur ++ more)
all_bits_behind [] cur more = refl
all_bits_behind (o ∷ front) cur more =
    append_assoc o (all_bits front cur) more ∙ ap (λ l. o ++ l) (all_bits_behind front cur more)

abbrev pub IsOctet : List Bool → Type 0
IsOctet o = length o ≡ 8

All-append :
    (front : List (List Bool)) (o : List Bool)
    → All IsOctet front
    → IsOctet o
    → All IsOctet (front ++ (o ∷ []))
All-append [] o h k = (k, tt)
All-append (p ∷ front) o (h, hs) k = (h, All-append front o hs k)

-- The bits that have been written so far
pub record Written (bits : List Bool) (s : BitStream) : Type 0 where
  pub front : List (List Bool)
  pub cur : List Bool
  pub laid_out : s ≡ layout front cur
  pub open_byte : length cur < 8
  pub whole : All IsOctet front
  pub holds : all_bits front cur ≡ bits

pub new_bit_stream-Written : Written [] new_bit_stream
unfolding new_bit_stream
new_bit_stream-Written = record {
  front = [];
  cur = [];
  laid_out = refl;
  open_byte = omega arith;
  whole = tt;
  holds = refl;
}

-- The byte with one more bit
filled :
    (cur : List Bool) (b : Bool)
    → length cur < 8
    → bit_or (high 8 cur) (bit_value b * 2 ^ (7 - length cur) % 256) ≡ high 8 (cur ++ (b ∷ []))
filled cur b h =
    let weight : 2 ^ (7 - length cur) ≤ 2 ^ 7 =
      pow-le-pow_right (omega arith) {j = 7} (omega arith) in
    let small : bit_value b * 2 ^ (7 - length cur) % 256 ≡ bit_value b * 2 ^ (7 - length cur) =
      mod-eq_of_lt (below b weight) in
    ap (bit_or (high 8 cur)) small ∙ bit_or-high cur b (7 - length cur) (omega arith)
  where
    below : {w : ℕ} (b : Bool) → w ≤ 128 → bit_value b * w < 256
    below true h = omega arith
    below false h = omega arith

extended_open :
    (front : List (List Bool)) (v j : ℕ)
    → extended (stream (packed front (v ∷ [])) (length front) j)
      ≡ stream (packed front (v ∷ [])) (length front) j
unfolding extended
extended_open front v j =
    let room : leb (length (packed front (v ∷ []))) (length front) ≡ false =
      ground (arith, length-packed front (v ∷ [])) in
    rw room refl

extended_full :
    (front : List (List Bool)) (v j : ℕ)
    → extended (stream (packed front (v ∷ [])) (length front + 1) j)
      ≡ stream (packed front (v ∷ 0 ∷ [])) (length front + 1) j
unfolding extended
extended_full front v j =
    let none_left : leb (length (packed front (v ∷ []))) (length front + 1) ≡ true =
      ground (arith, length-packed front (v ∷ [])) in
    rw (none_left, packed_behind front v 0) refl

-- A bit that is written goes into the byte that is being filled, or fills it up.
write_bit-layout :
    (front : List (List Bool)) (cur : List Bool) (b : Bool)
    → length cur < 7
    → write_bit b (layout front cur) ≡ ok (layout front (cur ++ (b ∷ [])))
unfolding write_bit
write_bit-layout front cur b h =
    let part : ((length cur + 1) % 8 == 0) ≡ false = ground arith in
    let len : length (cur ++ (b ∷ [])) ≡ length cur + 1 = length-append cur (b ∷ []) in
    rw
      (
        byte_at-packed front (high 8 cur) [],
        set_byte-packed front (high 8 cur)
            (bit_or (high 8 cur) (bit_value b * 2 ^ (7 - length cur) % 256)),
        filled cur b (omega arith),
        part,
        extended_open front (high 8 (cur ++ (b ∷ []))) (length cur + 1),
        len,
      )
      refl

write_bit-full :
    (front : List (List Bool)) (cur : List Bool) (b : Bool)
    → length cur ≡ 7
    → write_bit b (layout front cur) ≡ ok (layout (front ++ ((cur ++ (b ∷ [])) ∷ [])) [])
unfolding write_bit
write_bit-full front cur b h =
    let whole : ((length cur + 1) % 8 == 0) ≡ true = ground arith in
    let octet = cur ++ (b ∷ []) in
    let len : length (front ++ (octet ∷ [])) ≡ length front + 1 =
      length-append front (octet ∷ []) in
    rw
      (
        byte_at-packed front (high 8 cur) [],
        set_byte-packed front (high 8 cur)
            (bit_or (high 8 cur) (bit_value b * 2 ^ (7 - length cur) % 256)),
        filled cur b (omega arith),
        whole,
        extended_full front (high 8 octet) 0,
        len,
        packed-append front octet (0 ∷ []),
      )
      refl

pub write_bit-Written :
    (bits : List Bool) (b : Bool) (s : BitStream)
    → Written bits s
    → (s' : BitStream) × (write_bit b s ≡ ok s') × Written (bits ++ (b ∷ [])) s'
write_bit-Written bits b s w = elim (Bool-cases (ltb (length w.cur) 7)) [
  | inl room ↦ (
    layout w.front (w.cur ++ (b ∷ [])),
    ap (write_bit b) w.laid_out ∙ write_bit-layout w.front w.cur b (ground arith),
    record {
      front = w.front;
      cur = w.cur ++ (b ∷ []);
      laid_out = refl;
      open_byte = ground (arith, length-append w.cur (b ∷ []));
      whole = w.whole;
      holds = sym (all_bits_behind w.front w.cur (b ∷ [])) ∙ ap (λ l. l ++ (b ∷ [])) w.holds;
    },
  )
  | inr full ↦
      let seven : length w.cur ≡ 7 = ground (arith, w.open_byte) in
      (
        layout (w.front ++ ((w.cur ++ (b ∷ [])) ∷ [])) [],
        ap (write_bit b) w.laid_out ∙ write_bit-full w.front w.cur b seven,
        record {
          front = w.front ++ ((w.cur ++ (b ∷ [])) ∷ []);
          cur = [];
          laid_out = refl;
          open_byte = omega arith;
          whole =
              All-append w.front (w.cur ++ (b ∷ [])) w.whole
                (omega (arith, length-append w.cur (b ∷ [])));
          holds =
              all_bits-append w.front (w.cur ++ (b ∷ [])) []
              ∙ ap (all_bits w.front) (append-nil (w.cur ++ (b ∷ [])))
              ∙ sym (all_bits_behind w.front w.cur (b ∷ []))
              ∙ ap (λ l. l ++ (b ∷ [])) w.holds;
        },
      )
]
