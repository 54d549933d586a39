-- ===== src/Network/CompactFilters/CfCheckPoint.antt =====
-- The message CfCheckPointMessage of internal/network/compact_filters.go.
use go_bitcoin.Base.{
  ℕ, ◌*◌, ◌^◌, ◌≤◌, List, ◌∷◌, ◌++◌, append_assoc, length, All, Result, ok, ◌>>=◌, ◌≡◌, refl,
}
use go_bitcoin.Base.Bytes.{read_full}
use go_bitcoin.Base.Bytes.Reading.{read_full-append}
use go_bitcoin.Base.Codes.{Codes}
use go_bitcoin.Network.CompactFilters.{
  read_type, hash_list_bytes, read_hash_list, read_type-append, read_hash_list-Codes,
}

pub record CfCheckPointMessage : Type 0 where
  pub f_type : ℕ
  pub stop_hash : List ℕ
  pub filter_headers : List (List ℕ)

unfoldable pub serialize : CfCheckPointMessage → Result (List ℕ)
serialize cpm = do
  headers ← hash_list_bytes cpm.filter_headers
  ok (cpm.f_type ∷ (cpm.stop_hash ++ headers))

unfoldable pub parse_cf_check_point_message : List ℕ → Result (CfCheckPointMessage × List ℕ)
parse_cf_check_point_message bs = do
  (f, bs1) ← read_type bs
  (stop, bs2) ← read_full 32 bs1
  (headers, rest) ← read_hash_list bs2
  ok (record { f_type = f; stop_hash = stop; filter_headers = headers }, rest)

-- Filter headers of 32 bytes, as many as can be allocated, behind a hash of 32 bytes, are written and
-- read back in front of anything.
pub parse_cf_check_point_message-serialize :
    (msg : CfCheckPointMessage)
    → length msg.stop_hash ≡ 32
    → All (λ h. length h ≡ 32) msg.filter_headers
    → 32 * length msg.filter_headers ≤ 2 ^ 48
    → Codes parse_cf_check_point_message (serialize msg) msg
unfolding parse_cf_check_point_message serialize
parse_cf_check_point_message-serialize msg stop sized few =
    let (headers, written, taken) = read_hash_list-Codes msg.filter_headers sized few in
    (
      msg.f_type ∷ (msg.stop_hash ++ headers),
      rw written refl,
      (λ rest.
          rw
            (
              append_assoc,
              read_type-append msg.f_type (msg.stop_hash ++ (headers ++ rest)),
              read_full-append 32 msg.stop_hash (headers ++ rest) stop,
              taken rest,
            )
            refl),
    )
