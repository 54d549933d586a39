-- ===== src/Encoding/VarInt/RoundTrip.antt =====
-- Reading back what EncodeVarInt wrote.
use go_bitcoin.Base.{ℕ, ◌-◌, ◌%◌, ◌^◌, ◌<◌, List, [], ◌∷◌, ◌++◌}
use go_bitcoin.Base.{◌≡◌, refl, arith}
use go_bitcoin.Base.{◌==◌, if◌then◌else◌}
use go_bitcoin.Base.{ok, ◌>>=◌}
use go_bitcoin.Base.Bytes.{le_encode}
use go_bitcoin.Base.Bytes.{le_decode-le_encode, length-le_encode}
use go_bitcoin.Base.Bytes.Reading.{read_full-append}
use go_bitcoin.Encoding.VarInt.{read_wide, read_var_int, encode_var_int}

pub read_wide-le_encode :
    (k v : ℕ) (rest : List ℕ) → v < 256 ^ k → read_wide k (le_encode k v ++ rest) ≡ ok (v, rest)
unfolding read_wide
read_wide-le_encode k v rest h =
    rw (read_full-append k (le_encode k v) rest (length-le_encode k v), le_decode-le_encode k v h)

pub read_var_int-wide :
    (b : ℕ) (rest : List ℕ)
    → read_var_int (b ∷ rest) ≡ (
        if b == 0xfd
        then read_wide 2 rest
        else if b == 0xfe
        then read_wide 4 rest
        else if b == 0xff
        then read_wide 8 rest
        else ok (b, rest))
unfolding read_var_int
read_var_int-wide b rest = rw (read_full-append 1 (b ∷ []) rest refl)

-- For every number below 2^64 - 1, ReadVarInt reads back what EncodeVarInt wrote and leaves the
-- bytes that follow.
pub read_var_int-encode_var_int :
    (i : ℕ) (rest : List ℕ)
    → i < 2 ^ 64 - 1
    → (encode_var_int i >>= λ bs. read_var_int (bs ++ rest)) ≡ ok (i, rest)
unfolding encode_var_int
read_var_int-encode_var_int i rest h = ground (
  arith,
  read_var_int-wide (i % 256) rest,
  read_var_int-wide 0xfd (le_encode 2 (i % 2 ^ 16) ++ rest),
  read_var_int-wide 0xfe (le_encode 4 (i % 2 ^ 32) ++ rest),
  read_var_int-wide 0xff (le_encode 8 i ++ rest),
  read_wide-le_encode 2 (i % 2 ^ 16) rest,
  read_wide-le_encode 4 (i % 2 ^ 32) rest,
  read_wide-le_encode 8 i rest,
)
