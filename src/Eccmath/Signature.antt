-- ===== src/Eccmath/Signature.antt =====
-- internal/eccmath/signature.go: signatures and their DER form.
pub mod RoundTrip
use go_bitcoin.Base.{ℕ, ◌+◌, ◌%◌, Bool, not, ◌&&◌, List, [], ◌∷◌, ◌++◌, bit_and}
use go_bitcoin.Base.{ltb, ◌==◌, if◌then◌else◌, length}
use go_bitcoin.Base.{Result, ok, err, panic, ◌>>=◌, bad_marker}
use go_bitcoin.Base.Bytes.{Reader, read_full, read_exactly, le_decode}
use go_bitcoin.Base.BigInt.{set_bytes, to_bytes}

pub record Signature : Type 0 where
  pub r : ℕ
  pub s : ℕ

-- One marker byte that was read, against what it has to be.
abbrev expect : List ℕ → ℕ → Result (Unit {0})
expect buf m = if le_decode buf == m then ok tt else err bad_marker

infixl 5 ◌>>◌
abbrev ◌>>◌ {ℓ} : {B : Type ℓ} → Result (Unit {0}) → Result B → Result B
m >> k = m >>= λ _. k

-- The INTEGER marker, the length and the big-endian bytes of r, and likewise of s.
unfoldable pub parse_integer : List ℕ → Result (ℕ × List ℕ)
parse_integer bs = do
  (marker, bs') ← read_full 1 bs
  expect marker 0x02
  (len, bs'') ← read_full 1 bs'
  (int_bytes, rest) ← read_full (le_decode len) bs''
  ok (set_bytes int_bytes, rest)

-- The total length is read and not used; what follows the signature is left in the reader.
unfoldable pub parse_signature : Reader → List ℕ → Result Signature
parse_signature rd bs = do
  (marker, bs₁) ← read_exactly rd 1 bs
  expect marker 0x30
  (len, bs₂) ← read_exactly rd 1 bs₁
  (r, bs₃) ← parse_integer bs₂
  (s, bs₄) ← parse_integer bs₃
  ok (record { r = r; s = s })

-- bytes.TrimLeft(b, "\x00")
unfoldable pub trim_zeros : List ℕ → List ℕ
trim_zeros [] = []
trim_zeros (b ∷ bs) = let rest = trim_zeros bs in if b == 0 then rest else b ∷ bs

unfoldable pub pad_high : List ℕ → List ℕ
pad_high [] = []
pad_high (b ∷ bs) = if not (bit_and b 0x80 == 0) then 0x00 ∷ b ∷ bs else b ∷ bs

unfoldable pub int_bytes : ℕ → List ℕ
int_bytes n = pad_high (trim_zeros (to_bytes n))

unfoldable pub serialize : Signature → List ℕ
serialize sig =
    let r_bytes = int_bytes sig.r in
    let s_bytes = int_bytes sig.s in
    0x30
    ∷ ((1 + 1 + length r_bytes + 1 + 1 + length s_bytes) % 256)
    ∷ 0x02
    ∷ (length r_bytes % 256)
    ∷ (r_bytes ++ (0x02 ∷ (length s_bytes % 256) ∷ s_bytes))
