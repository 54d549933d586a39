-- ===== src/Network/CompactFilters/CfHeaders.antt =====
-- The message CfHeadersMessage of internal/network/compact_filters.go.
use go_bitcoin.Base.{
  ℕ, ◌*◌, ◌^◌, ◌≤◌, List, ◌∷◌, ◌++◌, append_assoc, length, All, Result, ok, ◌>>=◌, ◌≡◌, refl,
}
use go_bitcoin.Base.Bytes.{read_full}
use go_bitcoin.Base.Bytes.Reading.{read_full-append}
use go_bitcoin.Network.CompactFilters.{
  read_type, hash_list_bytes, read_hash_list, read_type-append, read_hash_list-Codes,
}

pub record CfHeadersMessage : Type 0 where
  pub f_type : ℕ
  pub stop_hash : List ℕ
  pub prev_filter_header : List ℕ
  pub filter_hashes : List (List ℕ)

unfoldable pub serialize : CfHeadersMessage → Result (List ℕ)
serialize cfh = do
  hashes ← hash_list_bytes cfh.filter_hashes
  ok (cfh.f_type ∷ (cfh.stop_hash ++ (cfh.prev_filter_header ++ hashes)))

unfoldable pub parse_cf_headers_message : List ℕ → Result (CfHeadersMessage × List ℕ)
parse_cf_headers_message bs = do
  (f, bs1) ← read_type bs
  (stop, bs2) ← read_full 32 bs1
  (prev, bs3) ← read_full 32 bs2
  (hashes, rest) ← read_hash_list bs3
  ok (
    record { f_type = f; stop_hash = stop; prev_filter_header = prev; filter_hashes = hashes },
    rest,
  )

-- Filter hashes of 32 bytes, as many as can be allocated, behind two hashes of 32 bytes, are written
-- by Serialize and read back by the parser in front of anything.
pub parse_cf_headers_message-serialize :
    (msg : CfHeadersMessage)
    → length msg.stop_hash ≡ 32
    → length msg.prev_filter_header ≡ 32
    → All (λ h. length h ≡ 32) msg.filter_hashes
    → 32 * length msg.filter_hashes ≤ 2 ^ 48
    → (bs : List ℕ) × (serialize msg ≡ ok bs)
      × ((rest : List ℕ) → parse_cf_headers_message (bs ++ rest) ≡ ok (msg, rest))
unfolding parse_cf_headers_message serialize
parse_cf_headers_message-serialize msg stop prev sized few =
    let (hashes, written, taken) = read_hash_list-Codes msg.filter_hashes sized few in
    (
      msg.f_type ∷ (msg.stop_hash ++ (msg.prev_filter_header ++ hashes)),
      rw written refl,
      (λ rest.
          rw
            (
              append_assoc,
              append_assoc,
              read_type-append msg.f_type
                  (msg.stop_hash ++ (msg.prev_filter_header ++ (hashes ++ rest))),
              read_full-append 32 msg.stop_hash (msg.prev_filter_header ++ (hashes ++ rest)) stop,
              read_full-append 32 msg.prev_filter_header (hashes ++ rest) prev,
              taken rest,
            )
            refl),
    )
