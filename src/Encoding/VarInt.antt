-- ===== src/Encoding/VarInt.antt =====
-- internal/encoding/varints.go: integers in 1, 3, 5 or 9 bytes.
pub mod RoundTrip
pub mod Shape
use go_bitcoin.Base.{ℕ, zero, suc, ◌+◌, ◌-◌, ◌%◌, ◌^◌, Option, none, some, List, [], ◌∷◌}
use go_bitcoin.Base.{ltb, leb, ◌==◌, if◌then◌else◌, length, take, drop}
use go_bitcoin.Base.{Result, ok, err, panic, ◌>>=◌, invalid_input}
use go_bitcoin.Base.Bytes.{le_encode, le_decode, read_full}

-- ReadVarInt after the first byte
unfoldable pub read_wide : ℕ → List ℕ → Result (ℕ × List ℕ)
read_wide k r = do (xs, rest) ← read_full k r; ok (le_decode xs, rest)

abbrev first_of_read : List ℕ → (ℕ → Result (ℕ × List ℕ)) → Result (ℕ × List ℕ)
first_of_read [] k = panic
first_of_read (b ∷ bs) k = k b

unfoldable pub read_var_int : List ℕ → Result (ℕ × List ℕ)
unfolding read_wide
read_var_int r = do
  (buf, rest) ← read_full 1 r
  first_of_read buf λ b.
      if b == 0xfd
      then read_wide 2 rest
      else if b == 0xfe
      then read_wide 4 rest
      else if b == 0xff
      then read_wide 8 rest
      else ok (b, rest)

unfoldable pub encode_var_int : ℕ → Result (List ℕ)
encode_var_int i =
    if ltb i 0xfd
    then ok ((i % 256) ∷ [])
    else if ltb i 0x10000
    then ok (0xfd ∷ le_encode 2 (i % 2 ^ 16))
    else if ltb i 0x100000000
    then ok (0xfe ∷ le_encode 4 (i % 2 ^ 32))
    else if ltb i (0x10000000000000000 - 1)
    then ok (0xff ∷ le_encode 8 i)
    else err invalid_input

-- `data[1:1+k]` panics where the slice is shorter.
unfoldable pub decode_wide : ℕ → List ℕ → Result (ℕ × List ℕ)
decode_wide k bs = if leb k (length bs) then ok (le_decode (take k bs), drop k bs) else panic

unfoldable pub decode_var_int : List ℕ → Result (ℕ × List ℕ)
unfolding decode_wide
decode_var_int [] = ok (0, [])
decode_var_int (b ∷ bs) =
    if ltb b 0xfd
    then ok (b, bs)
    else if b == 0xfd
    then decode_wide 2 bs
    else if b == 0xfe
    then decode_wide 4 bs
    else decode_wide 8 bs
