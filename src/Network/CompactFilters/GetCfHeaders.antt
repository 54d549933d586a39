-- ===== src/Network/CompactFilters/GetCfHeaders.antt =====
-- The message GetCfHeadersMessage of internal/network/compact_filters.go.
use go_bitcoin.Base.{
  ℕ, ◌^◌, ◌<◌, List, ◌∷◌, ◌++◌, append_assoc, length, Result, ok, ◌>>=◌, ◌≡◌, refl,
}
use go_bitcoin.Base.Bytes.{le_encode, le_decode, length-le_encode, le_decode-le_encode, read_full}
use go_bitcoin.Base.Bytes.Reading.{read_full-append}
use go_bitcoin.Network.CompactFilters.{read_type, read_type-append}

pub record GetCfHeadersMessage : Type 0 where
  pub f_type : ℕ
  pub start_height : ℕ
  pub stop_hash : List ℕ

unfoldable pub serialize : GetCfHeadersMessage → List ℕ
serialize cfh = cfh.f_type ∷ (le_encode 4 cfh.start_height ++ cfh.stop_hash)

unfoldable pub parse_get_cf_headers_message : List ℕ → Result (GetCfHeadersMessage × List ℕ)
parse_get_cf_headers_message bs = do
  (f, bs1) ← read_type bs
  (buf4, bs2) ← read_full 4 bs1
  (hash, rest) ← read_full 32 bs2
  ok (record { f_type = f; start_height = le_decode buf4; stop_hash = hash }, rest)

-- A request with a height below 2^32 and a hash of 32 bytes is read back in front of anything.
pub parse_get_cf_headers_message-serialize :
    (msg : GetCfHeadersMessage) (rest : List ℕ)
    → msg.start_height < 2 ^ 32
    → length msg.stop_hash ≡ 32
    → parse_get_cf_headers_message (serialize msg ++ rest) ≡ ok (msg, rest)
unfolding parse_get_cf_headers_message serialize
parse_get_cf_headers_message-serialize msg rest low sized =
    rw
      (
        append_assoc,
        read_type-append msg.f_type (le_encode 4 msg.start_height ++ (msg.stop_hash ++ rest)),
        read_full-append 4 (le_encode 4 msg.start_height) (msg.stop_hash ++ rest)
            (length-le_encode 4 msg.start_height),
        read_full-append 32 msg.stop_hash rest sized,
        le_decode-le_encode 4 msg.start_height low,
      )
      refl
