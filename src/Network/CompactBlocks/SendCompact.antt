-- ===== src/Network/CompactBlocks/SendCompact.antt =====
-- The message SendCompactMessage of internal/network/compact.go.
use go_bitcoin.Base.{ℕ, ◌^◌, ◌<◌, Bool, true, false, List, [], ◌∷◌, ◌++◌, ◌==◌, if◌then◌else◌}
use go_bitcoin.Base.{Result, ok, ◌>>=◌, ◌≡◌, refl}
use go_bitcoin.Base.Bytes.{
  read_full, le_encode, le_decode, length-le_encode, le_decode-le_encode, le_decode-one,
}
use go_bitcoin.Base.Bytes.Reading.{read_full-append}
use go_bitcoin.Base.Codes.{Codes}

pub record SendCompactMessage : Type 0 where
  pub high_bandwidth : Bool
  pub version : ℕ

unfoldable pub parse_send_compact_message : List ℕ → Result (SendCompactMessage × List ℕ)
parse_send_compact_message bs = do
  (high_bandwidth_bytes, bs1) ← read_full 1 bs
  (vers_bytes, rest) ← read_full 8 bs1
  ok (
    record { high_bandwidth = le_decode high_bandwidth_bytes == 1; version = le_decode vers_bytes },
    rest,
  )

-- The first byte of the message
abbrev flag : Bool → ℕ
flag b = if b then 1 else 0

unfoldable pub serialize : SendCompactMessage → Result (List ℕ)
serialize cm = ok (flag cm.high_bandwidth ∷ le_encode 8 cm.version)

flag_read : (b : Bool) → (flag b == 1) ≡ b
flag_read true = refl
flag_read false = refl

-- Any choice with a 64-bit version is written, and read back in front of anything.
parse_send_compact_message-serialize :
    (msg : SendCompactMessage)
    → msg.version < 2 ^ 64
    → Codes parse_send_compact_message (serialize msg) msg
unfolding parse_send_compact_message serialize
parse_send_compact_message-serialize msg fits = (
  flag msg.high_bandwidth ∷ le_encode 8 msg.version,
  refl,
  (λ rest.
      rw
        (
          read_full-append 1 (flag msg.high_bandwidth ∷ []) (le_encode 8 msg.version ++ rest) refl,
          read_full-append 8 (le_encode 8 msg.version) rest (length-le_encode 8 msg.version),
          le_decode-one (flag msg.high_bandwidth),
          le_decode-le_encode 8 msg.version fits,
          flag_read msg.high_bandwidth,
        )
        refl),
)
