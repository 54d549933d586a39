-- ===== src/Network/CompactFilters/CFilter.antt =====
-- The message CFilterMessage of internal/network/compact_filters.go.
use go_bitcoin.Base.{
  ℕ, ◌-◌, ◌^◌, ◌≤◌, ◌<◌, List, ◌∷◌, ◌++◌, append_assoc, length, Result, ok, ◌>>=◌, ◌≡◌, refl, arith,
}
use go_bitcoin.Base.Bytes.{read_full}
use go_bitcoin.Base.Bytes.Reading.{read_full-append}
use go_bitcoin.Base.Codes.{make, make-ok, ◌>>◌, Codes}
use go_bitcoin.Encoding.VarInt.{read_var_int, encode_var_int}
use go_bitcoin.Encoding.VarInt.Shape.{var_int, encode_var_int-eq-var_int, read_var_int-var_int}
use go_bitcoin.Network.CompactFilters.{read_type, read_type-append}

pub record CFilterMessage : Type 0 where
  pub f_type : ℕ
  pub block_hash : List ℕ
  pub filter_bytes : List ℕ

unfoldable pub serialize : CFilterMessage → Result (List ℕ)
serialize cf = do
  len_bytes ← encode_var_int (length cf.filter_bytes)
  ok (cf.f_type ∷ (cf.block_hash ++ (len_bytes ++ cf.filter_bytes)))

unfoldable pub parse_c_filter_message : List ℕ → Result (CFilterMessage × List ℕ)
parse_c_filter_message bs = do
  (f, bs1) ← read_type bs
  (hash, bs2) ← read_full 32 bs1
  (len, bs3) ← read_var_int bs2
  make 1 len
  (filter, rest) ← read_full len bs3
  ok (record { f_type = f; block_hash = hash; filter_bytes = filter }, rest)

-- A filter of a block with a hash of 32 bytes, short enough to be allocated, is written and read back
-- in front of anything.
pub parse_c_filter_message-serialize :
    (msg : CFilterMessage)
    → length msg.block_hash ≡ 32
    → length msg.filter_bytes ≤ 2 ^ 48
    → Codes parse_c_filter_message (serialize msg) msg
unfolding parse_c_filter_message serialize
parse_c_filter_message-serialize msg sized short =
    let n = length msg.filter_bytes in
    let n_fits : n < 2 ^ 64 - 1 = omega arith in
    (
      msg.f_type ∷ (msg.block_hash ++ (var_int n ++ msg.filter_bytes)),
      rw (encode_var_int-eq-var_int n n_fits) refl,
      (λ rest.
          rw
            (
              append_assoc,
              append_assoc,
              read_type-append msg.f_type
                  (msg.block_hash ++ (var_int n ++ (msg.filter_bytes ++ rest))),
              read_full-append 32 msg.block_hash (var_int n ++ (msg.filter_bytes ++ rest)) sized,
              read_var_int-var_int n (msg.filter_bytes ++ rest) n_fits,
              make-ok 1 n (omega arith),
              read_full-append n msg.filter_bytes rest refl,
            )
            refl),
    )
