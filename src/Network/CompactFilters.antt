-- ===== src/Network/CompactFilters.antt =====
-- What the messages of internal/network/compact_filters.go share. A [32]byte is a list of 32 bytes.
pub mod GetCFilter
pub mod CFilter
pub mod GetCfHeaders
pub mod CfHeaders
pub mod GetCfCheckPoint
pub mod CfCheckPoint
use go_bitcoin.Base.{
  ℕ, ◌+◌, ◌-◌, ◌*◌, ◌^◌, ◌≤◌, ◌<◌, List, [], ◌∷◌, ◌++◌, append_assoc, length, All, Result, ok,
  ◌>>=◌, ◌≡◌, refl, arith,
}
use go_bitcoin.Base.Bytes.{le_decode, le_decode-one, read_full}
use go_bitcoin.Base.Bytes.Reading.{read_full-append}
use go_bitcoin.Base.Codes.{
  make, make-ok, ◌>>◌, parse_many, write_many, Codes, CodesBefore, Codes-many,
}
use go_bitcoin.Encoding.VarInt.{read_var_int, encode_var_int}
use go_bitcoin.Encoding.VarInt.Shape.{var_int, encode_var_int-eq-var_int, read_var_int-var_int}

-- One byte, io.ReadFull into a buffer of one
unfoldable pub read_type : List ℕ → Result (ℕ × List ℕ)
read_type bs = do (buf1, rest) ← read_full 1 bs; ok (le_decode buf1, rest)

-- The counted hashes
unfoldable pub hash_list_bytes : List (List ℕ) → Result (List ℕ)
hash_list_bytes hashes = do
  len_bytes ← encode_var_int (length hashes)
  body ← write_many ok hashes
  ok (len_bytes ++ body)

unfoldable pub read_hash_list : List ℕ → Result (List (List ℕ) × List ℕ)
read_hash_list bs = do
  (num_hashes, bs1) ← read_var_int bs
  make 32 num_hashes
  parse_many (read_full 32) num_hashes bs1

read_hashes-Codes :
    (hashes : List (List ℕ))
    → All (λ h. length h ≡ 32) hashes
    → All (λ h. CodesBefore 0 (read_full 32) (ok h) h) hashes
read_hashes-Codes [] h = tt
read_hashes-Codes (x ∷ hashes) (h, hs) =
    ((x, refl, λ rest k. read_full-append 32 x rest h), read_hashes-Codes hashes hs)

-- Hashes of 32 bytes, as many as can be allocated, are read back in front of anything.
pub read_hash_list-Codes :
    (hashes : List (List ℕ))
    → All (λ h. length h ≡ 32) hashes
    → 32 * length hashes ≤ 2 ^ 48
    → Codes read_hash_list (hash_list_bytes hashes) hashes
unfolding read_hash_list hash_list_bytes
read_hash_list-Codes hashes sized few =
    let n = length hashes in
    let n_fits : n < 2 ^ 64 - 1 = omega arith in
    let (body, written, taken) =
      Codes-many 0 (read_full 32) ok hashes (read_hashes-Codes hashes sized) in
    (
      var_int n ++ body,
      rw (encode_var_int-eq-var_int n n_fits, written) refl,
      (λ rest.
          rw
            (
              append_assoc,
              read_var_int-var_int n (body ++ rest) n_fits,
              make-ok 32 n few,
              taken rest (omega arith),
            )
            refl),
    )

pub read_type-append : (f : ℕ) (rest : List ℕ) → read_type (f ∷ rest) ≡ ok (f, rest)
unfolding read_type
read_type-append f rest = rw (read_full-append 1 (f ∷ []) rest refl, le_decode-one f) refl
