-- ===== src/Network/CompactFilters/GetCfCheckPoint.antt =====
-- The message GetCfCheckPointMessage of internal/network/compact_filters.go.
use go_bitcoin.Base.{ℕ, List, ◌∷◌, ◌++◌, length, Result, ok, ◌>>=◌, ◌≡◌, refl}
use go_bitcoin.Base.Bytes.{read_full}
use go_bitcoin.Base.Bytes.Reading.{read_full-append}
use go_bitcoin.Network.CompactFilters.{read_type, read_type-append}

pub record GetCfCheckPointMessage : Type 0 where
  pub f_type : ℕ
  pub stop_hash : List ℕ

unfoldable pub serialize : GetCfCheckPointMessage → List ℕ
serialize cfcp = cfcp.f_type ∷ cfcp.stop_hash

unfoldable pub parse_get_cf_check_point_message : List ℕ → Result (GetCfCheckPointMessage × List ℕ)
parse_get_cf_check_point_message bs = do
  (f, bs1) ← read_type bs
  (stop, rest) ← read_full 32 bs1
  ok (record { f_type = f; stop_hash = stop }, rest)

-- A request with a hash of 32 bytes is read back in front of anything.
pub parse_get_cf_check_point_message-serialize :
    (msg : GetCfCheckPointMessage) (rest : List ℕ)
    → length msg.stop_hash ≡ 32
    → parse_get_cf_check_point_message (serialize msg ++ rest) ≡ ok (msg, rest)
unfolding parse_get_cf_check_point_message serialize
parse_get_cf_check_point_message-serialize msg rest sized =
    rw
      (
        read_type-append msg.f_type (msg.stop_hash ++ rest),
        read_full-append 32 msg.stop_hash rest sized,
      )
      refl
