-- ===== src/Encoding/BitStream/Finished.antt =====
-- Runs of bits that are written, and the bytes that show them to a reader.
use go_bitcoin.Base.{
  ℕ, zero, suc, ◌+◌, ◌/◌, ◌^◌, ◌<◌, bit_and, Bool, true, false, ◌&&◌, List, [], ◌∷◌, ◌++◌,
  append-nil, append_assoc,
}
use go_bitcoin.Base.{
  ◌==◌, ltb, length, length-append, take, All, Result, ok, ◌>>=◌, ◌≡◌, refl, sym, ap, subst, ◌∙◌,
  arith,
}
use go_bitcoin.Encoding.BitStream.{
  BitStream, stream, byte_at, write_bit, write_bits, bytes, new_bit_stream_from_slice,
}
use go_bitcoin.Encoding.BitStream.Layout.{high}
use go_bitcoin.Encoding.BitStream.Reading.{Shows, Shows-octet, Shows-partial, low_bits}
use go_bitcoin.Encoding.BitStream.Writing.{
  packed, all_bits, layout, IsOctet, byte_at-packed, packed-append, Written, write_bit-Written,
}

abbrev pub write_all : List Bool → BitStream → Result BitStream
write_all [] s = ok s
write_all (b ∷ bits) s = do s' ← write_bit b s; write_all bits s'

pub write_bits_eq : (n k : ℕ) (s : BitStream) → write_bits n k s ≡ write_all (low_bits n k) s
unfolding write_bits
write_bits_eq n zero s = refl
write_bits_eq n (suc k) s =
    ap (λ (next : BitStream → Result BitStream). write_bit (bit_and (n / 2 ^ k) 1 == 1) s >>= next)
      (λ i s'. write_bits_eq n k s' i)

pub write_all-Written :
    (before bits : List Bool) (s : BitStream)
    → Written before s
    → (s' : BitStream) × (write_all bits s ≡ ok s') × Written (before ++ bits) s'
write_all-Written before [] s w = (s, refl, subst (λ l. Written l s) (sym (append-nil before)) w)
write_all-Written before (b ∷ bits) s w =
    let (s1, e1, w1) = write_bit-Written before b s w in
    let (s2, e2, w2) = write_all-Written (before ++ (b ∷ [])) bits s1 w1 in
    (s2, rw (e1, e2) refl, subst (λ l. Written l s2) (append_assoc before (b ∷ []) bits) w2)

-- Whole bytes, one behind the other, show their bits.
Shows-packed :
    (buffer : List ℕ) (done front : List (List Bool)) (cur : List Bool) (tail : List ℕ)
    → buffer ≡ packed done (packed front tail)
    → All IsOctet front
    → Shows cur (stream buffer (length done + length front) 0)
    → Shows (all_bits front cur) (stream buffer (length done) 0)
Shows-packed buffer done [] cur tail e h shown =
    let same : length done + 0 ≡ length done = omega arith in
    subst (λ i. Shows cur (stream buffer i 0)) same shown
Shows-packed buffer done ([] ∷ front) cur tail e (h, hs) shown = absurd (omega arith)
Shows-packed buffer done ((b ∷ o) ∷ front) cur tail e (h, hs) shown =
    let octet : List Bool = b ∷ o in
    let len : length (done ++ (octet ∷ [])) ≡ length done + 1 = length-append done (octet ∷ []) in
    let place : length done + suc (length front) ≡ length (done ++ (octet ∷ [])) + length front =
      omega arith in
    let here : byte_at buffer (length done) ≡ ok (high 8 octet) =
      ap (λ l. byte_at l (length done)) e
      ∙ byte_at-packed done (high 8 octet) (packed front tail) in
    let others =
      Shows-packed buffer (done ++ (octet ∷ [])) front cur tail
        (e ∙ sym (packed-append done octet (packed front tail))) hs
        (subst (λ i. Shows cur (stream buffer i 0)) place shown) in
    Shows-octet buffer (length done) [] o (all_bits front cur) b here (omega arith)
      (subst (λ i. Shows (all_bits front cur) (stream buffer i 0)) len others)

take-packed :
    (front : List (List Bool)) (tail : List ℕ)
    → take (length front) (packed front tail) ≡ packed front []
take-packed [] tail = refl
take-packed (o ∷ front) tail = ap (λ l. high 8 o ∷ l) (take-packed front tail)

bytes-layout_whole : (front : List (List Bool)) → bytes (layout front []) ≡ packed front []
unfolding bytes
bytes-layout_whole [] = refl
bytes-layout_whole (o ∷ front) =
    let pos : (suc (length front) == 0) ≡ false = ground arith in
    rw pos (take-packed (o ∷ front) (0 ∷ []))

take_all :
    (front : List (List Bool)) (v : ℕ)
    → take (length front + 1) (packed front (v ∷ [])) ≡ packed front (v ∷ [])
take_all [] v = refl
take_all (o ∷ front) v =
    let shift : suc (length front) + 1 ≡ suc (length front + 1) = omega arith in
    rw shift (ap (λ l. high 8 o ∷ l) (take_all front v))

bytes-layout_open :
    (front : List (List Bool)) (b : Bool) (cur : List Bool)
    → bytes (layout front (b ∷ cur)) ≡ packed front (high 8 (b ∷ cur) ∷ [])
unfolding bytes
bytes-layout_open front b cur =
    let more : (length front == 0 && suc (length cur) == 0) ≡ false = ground arith in
    let some : ltb 0 (suc (length cur)) ≡ true = ground arith in
    rw (more, some) (take_all front (high 8 (b ∷ cur)))

Shows-layout :
    (front : List (List Bool)) (cur : List Bool)
    → length cur < 8
    → All IsOctet front
    → Shows (all_bits front cur) (stream (bytes (layout front cur)) 0 0)
Shows-layout front [] small h =
    rw (bytes-layout_whole front) (Shows-packed (packed front []) [] front [] [] refl h tt)
Shows-layout front (b ∷ cur) small h =
    let last = high 8 (b ∷ cur) in
    let buffer = packed front (last ∷ []) in
    let place : length front ≡ 0 + length front = omega arith in
    let shown : Shows (b ∷ cur) (stream buffer (length front) 0) =
      Shows-partial buffer (length front) [] (b ∷ cur) (byte_at-packed front last [])
        (omega arith) in
    rw (bytes-layout_open front b cur) (
      Shows-packed buffer [] front (b ∷ cur) (last ∷ []) refl h
        (subst (λ i. Shows (b ∷ cur) (stream buffer i 0)) place shown))

-- The bytes of a stream show all that was written to it.
pub Shows-bytes :
    (bits : List Bool) (s : BitStream)
    → Written bits s
    → Shows bits (new_bit_stream_from_slice (bytes s))
unfolding new_bit_stream_from_slice
Shows-bytes bits s w =
    subst (λ s. Shows bits (stream (bytes s) 0 0)) (sym w.laid_out)
      (subst (λ l. Shows l (stream (bytes (layout w.front w.cur)) 0 0)) w.holds
        (Shows-layout w.front w.cur w.open_byte w.whole))
