-- ===== src/Encoding/VarInt/Shape.antt =====
-- What EncodeVarInt writes, where it refuses, and how the two readers compare.
use go_bitcoin.Base.{ℕ, ◌+◌, ◌-◌, ◌^◌, ◌≤◌, ◌<◌, List, [], ◌∷◌, ◌++◌}
use go_bitcoin.Base.{◌≡◌, ap, ◌↔◌, arith}
use go_bitcoin.Base.{ltb, if◌then◌else◌, length, All, length-drop}
use go_bitcoin.Base.{Result, ok, err, ◌>>=◌, invalid_input}
use go_bitcoin.Base.Bytes.{IsByte, le_encode, read_full}
use go_bitcoin.Base.Bytes.{length-le_encode, le_encode-IsByte}
use go_bitcoin.Encoding.VarInt.{read_wide, read_var_int, encode_var_int, decode_wide}
use go_bitcoin.Encoding.VarInt.{decode_var_int}
use go_bitcoin.Encoding.VarInt.RoundTrip.{read_var_int-wide, read_var_int-encode_var_int}

-- The width that the value needs: 1, 3, 5 or 9 bytes.
abbrev pub var_int_size : ℕ → ℕ
var_int_size i =
    if ltb i 0xfd then 1 else if ltb i 0x10000 then 3 else if ltb i 0x100000000 then 5 else 9

-- The bytes that stand for a number below 2^64 - 1.
unfoldable pub var_int : ℕ → List ℕ
var_int i =
    if ltb i 0xfd
    then i ∷ []
    else if ltb i 0x10000
    then 0xfd ∷ le_encode 2 i
    else if ltb i 0x100000000
    then 0xfe ∷ le_encode 4 i
    else 0xff ∷ le_encode 8 i

pub encode_var_int-eq-var_int : (i : ℕ) → i < 2 ^ 64 - 1 → encode_var_int i ≡ ok (var_int i)
unfolding encode_var_int var_int
encode_var_int-eq-var_int i h = ground arith

pub length-var_int : (i : ℕ) → length (var_int i) ≡ var_int_size i
unfolding var_int
length-var_int i = ground (arith, length-le_encode 2 i, length-le_encode 4 i, length-le_encode 8 i)

pub var_int-IsByte : (i : ℕ) → All IsByte (var_int i)
unfolding var_int
var_int-IsByte i = ground (arith, le_encode-IsByte 2 i, le_encode-IsByte 4 i, le_encode-IsByte 8 i)

-- The reader returns what `var_int` stands for.
pub read_var_int-var_int :
    (i : ℕ) (rest : List ℕ) → i < 2 ^ 64 - 1 → read_var_int (var_int i ++ rest) ≡ ok (i, rest)
read_var_int-var_int i rest h = cc (
  read_var_int-encode_var_int i rest h,
  ap (λ (r : Result (List ℕ)). r >>= λ bs. read_var_int (bs ++ rest))
      (encode_var_int-eq-var_int i h),
)

-- EncodeVarInt fails exactly from 2^64 - 1 on, so it refuses the greatest uint64.
pub encode_var_int_fails_iff : (i : ℕ) → (encode_var_int i ≡ err invalid_input) ↔ (2 ^ 64 - 1 ≤ i)
unfolding encode_var_int
encode_var_int_fails_iff i = ground arith

read_wide_takes :
    (k : ℕ) (bs : List ℕ) (v : ℕ) (rest : List ℕ)
    → read_wide k bs ≡ ok (v, rest)
    → length rest + k ≡ length bs
unfolding read_wide read_full
read_wide_takes k bs v rest e = ground (arith, length-drop k bs)

decode_wide-read_wide :
    (k : ℕ) (bs : List ℕ) (v : ℕ) (rest : List ℕ)
    → read_wide k bs ≡ ok (v, rest)
    → decode_wide k bs ≡ ok (v, rest)
unfolding read_wide read_full decode_wide
decode_wide-read_wide k bs v rest e = ground arith

-- A successful ReadVarInt consumes at least one byte.
pub read_var_int_takes :
    (bs : List ℕ) (v : ℕ) (rest : List ℕ) → read_var_int bs ≡ ok (v, rest) → length rest < length bs
read_var_int_takes [] v rest e = unfold read_var_int read_full in cc
read_var_int_takes (b ∷ bs) v rest e = ground (
  arith,
  read_var_int-wide b bs,
  read_wide_takes 2 bs v rest,
  read_wide_takes 4 bs v rest,
  read_wide_takes 8 bs v rest,
)

-- Where ReadVarInt succeeds on bytes, DecodeVarInt returns the same number and the same rest.
pub decode_var_int-read_var_int :
    (bs : List ℕ) (v : ℕ) (rest : List ℕ)
    → All IsByte bs
    → read_var_int bs ≡ ok (v, rest)
    → decode_var_int bs ≡ ok (v, rest)
decode_var_int-read_var_int [] v rest h e = unfold read_var_int read_full in cc
decode_var_int-read_var_int (b ∷ bs) v rest (hb, h) e =
    unfold decode_var_int in
    ground (
      arith,
      read_var_int-wide b bs,
      decode_wide-read_wide 2 bs v rest,
      decode_wide-read_wide 4 bs v rest,
      decode_wide-read_wide 8 bs v rest,
    )
