-- ===== src/Encoding/BitStream.antt =====
-- internal/encoding/bitstream.go: streams of bits, the high bit of a byte first.
pub mod Layout
pub mod Reading
pub mod Writing
pub mod Finished
use go_bitcoin.Base.{
  ℕ, zero, suc, ◌+◌, ◌-◌, ◌*◌, ◌/◌, ◌%◌, ◌^◌, bit_and, bit_or, Bool, true, false, ◌&&◌, List, [],
  ◌∷◌, ◌++◌,
}
use go_bitcoin.Base.{
  ◌==◌, ltb, leb, if◌then◌else◌, length, take, Result, ok, err, panic, ◌>>=◌, invalid_input,
}

-- `buffer` is the field data.
pub record BitStream : Type 0 where
  pub buffer : List ℕ
  pub byte_index : ℕ
  pub bit_index : ℕ

abbrev pub stream : List ℕ → ℕ → ℕ → BitStream
stream bs i j = record { buffer = bs; byte_index = i; bit_index = j }

unfoldable pub new_bit_stream : BitStream
new_bit_stream = stream (0 ∷ []) 0 0

unfoldable pub new_bit_stream_from_slice : List ℕ → BitStream
new_bit_stream_from_slice bs = stream bs 0 0

-- A byte of a slice, and a new value for it; an index out of range panics.
unfoldable pub byte_at : List ℕ → ℕ → Result ℕ
byte_at [] i = panic
byte_at (b ∷ bs) zero = ok b
byte_at (b ∷ bs) (suc i) = byte_at bs i

unfoldable pub set_byte : List ℕ → ℕ → ℕ → List ℕ
set_byte [] i v = []
set_byte (b ∷ bs) zero v = v ∷ bs
set_byte (b ∷ bs) (suc i) v = b ∷ set_byte bs i v

abbrev pub bit_value : Bool → ℕ
bit_value true = 0x01
bit_value false = 0x00

-- The slice is extended where the next bit has no byte.
unfoldable pub extended : BitStream → BitStream
extended bs =
    if leb (length bs.buffer) bs.byte_index
    then record bs { buffer = bs.buffer ++ (0x00 ∷ []) }
    else bs

unfoldable pub write_bit : Bool → BitStream → Result BitStream
write_bit b bs = do
  curr_byte ← byte_at bs.buffer bs.byte_index
  (let data' =
        set_byte bs.buffer bs.byte_index
          (bit_or curr_byte (bit_value b * 2 ^ (7 - bs.bit_index) % 256)) in
      let bit_index' = bs.bit_index + 1 in
      ok (
        extended (
          if bit_index' % 8 == 0
          then stream data' (bs.byte_index + 1) 0
          else stream data' bs.byte_index bit_index')))

unfoldable pub read_bit : BitStream → Result (ℕ × BitStream)
unfolding byte_at
read_bit bs = do
  byte ← byte_at bs.buffer bs.byte_index
  (let res = bit_and byte (2 ^ (7 - bs.bit_index)) in
      let bit_index' = bs.bit_index + 1 in
      let bs' =
        if leb 8 bit_index'
        then stream bs.buffer (bs.byte_index + 1) 0
        else stream bs.buffer bs.byte_index bit_index' in
      ok ((if res == 0 then 0x00 else 0x01), bs'))

-- The bits of `n` below the `k`-th, from the highest down. `n` is the bit pattern of an int64.
unfoldable pub write_bits : ℕ → ℕ → BitStream → Result BitStream
write_bits n zero bs = ok bs
write_bits n (suc i) bs = do bs' ← write_bit (bit_and (n / 2 ^ i) 1 == 1) bs; write_bits n i bs'

unfoldable pub write_bits_big_endian : ℕ → ℕ → BitStream → Result BitStream
unfolding write_bits
write_bits_big_endian n k bs = if k == 0 then err invalid_input else write_bits n k bs

-- The result so far, an int64 as its bit pattern
unfoldable pub read_bits : ℕ → ℕ → BitStream → Result (ℕ × BitStream)
unfolding read_bit
read_bits zero result bs = ok (result, bs)
read_bits (suc k) result bs = do
  (bit, bs') ← read_bit bs
  read_bits k (bit_or (result * 2 % 2 ^ 64) bit) bs'

unfoldable pub read_bits_big_endian : ℕ → BitStream → Result (ℕ × BitStream)
unfolding read_bits
read_bits_big_endian k bs = read_bits k 0 bs

unfoldable pub bytes : BitStream → List ℕ
bytes bs =
    if bs.byte_index == 0 && bs.bit_index == 0
    then []
    else if ltb 0 bs.bit_index
    then take (bs.byte_index + 1) bs.buffer
    else take bs.byte_index bs.buffer
