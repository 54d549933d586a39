-- ===== src/Base/Bytes.antt =====
-- What the program uses of encoding/binary, io and bytes. A byte slice is a list of numbers below
-- 256, and a reader is the list of the bytes that are still to be read.
pub mod Reading
use go_bitcoin.Base.Tests.{leb, ◌==◌, if◌then◌else◌}
use go_bitcoin.Base.Lists.{length, take, drop, All}
use go_bitcoin.Base.Results.{Result, ok, err, ◌>>=◌, eof, unexpected_eof, short_read}
use Prim.Native.Nat.{ℕ, zero, suc, ◌+◌, ◌*◌, ◌/◌, ◌%◌, ◌^◌, ◌<◌}
use mathlib.Core.Path.{◌≡◌, refl, ap}
use mathlib.Core.List.{List, [], ◌∷◌}
use native.Mathlib.Nat.{pow-suc}
use native.Mathlib.Omega.{arith}

abbrev pub IsByte : ℕ → Type 0
IsByte b = b < 256

-- The `k` low bytes of a number, lowest first: binary.LittleEndian.PutUint16, -32 and -64.
unfoldable pub le_encode : ℕ → ℕ → List ℕ
le_encode zero v = []
le_encode (suc k) v = (v % 256) ∷ le_encode k (v / 256)

-- binary.LittleEndian.Uint16, -32 and -64
unfoldable pub le_decode : List ℕ → ℕ
le_decode [] = 0
le_decode (b ∷ bs) = b + 256 * le_decode bs

pub le_decode-one : (b : ℕ) → le_decode (b ∷ []) ≡ b
unfolding le_decode
le_decode-one b = omega arith

pub length-le_encode : (k v : ℕ) → length (le_encode k v) ≡ k
unfolding le_encode
length-le_encode zero v = refl
length-le_encode (suc k) v = ap suc (length-le_encode k (v / 256))

pub le_encode-IsByte : (k v : ℕ) → All IsByte (le_encode k v)
unfolding le_encode
le_encode-IsByte zero v = tt
le_encode-IsByte (suc k) v = (omega arith, le_encode-IsByte k (v / 256))

pub le_decode-le_encode : (k v : ℕ) → v < 256 ^ k → le_decode (le_encode k v) ≡ v
unfolding le_encode le_decode
le_decode-le_encode zero v h = omega arith
le_decode-le_encode (suc k) v h = ground (arith, pow-suc 256 k, le_decode-le_encode k (v / 256))

pub le_decode-lt : (bs : List ℕ) → All IsByte bs → le_decode bs < 256 ^ length bs
unfolding le_decode
le_decode-lt [] h = omega arith
le_decode-lt (b ∷ bs) (h, hs) = omega (arith, pow-suc 256 (length bs), le_decode-lt bs hs)

-- io.ReadFull over a reader in memory
unfoldable pub read_full : ℕ → List ℕ → Result (List ℕ × List ℕ)
read_full n bs =
    if leb n (length bs)
    then ok (take n bs, drop n bs)
    else if length bs == 0
    then err eof
    else err unexpected_eof

-- A bytes.Reader answers io.EOF at its end, a bytes.Buffer only where something was asked for.
pub data Reader : Type 0 where
  bytes_reader bytes_buffer : Reader

-- r.Read(buf) for a buffer of `n` bytes
unfoldable pub read : Reader → ℕ → List ℕ → Result (List ℕ × List ℕ)
read bytes_reader n [] = err eof
read bytes_buffer n [] = if n == 0 then ok ([], []) else err eof
read r n (b ∷ bs) = ok (take n (b ∷ bs), drop n (b ∷ bs))

-- r.Read(buf), refused where it reads fewer than `n` bytes
unfoldable pub read_exactly : Reader → ℕ → List ℕ → Result (List ℕ × List ℕ)
unfolding read
read_exactly r n bs = do
  (xs, rest) ← read r n bs
  if length xs == n then ok (xs, rest) else err short_read

-- `copy` into `k` zero bytes
unfoldable pub copy_into : ℕ → List ℕ → List ℕ
copy_into zero xs = []
copy_into (suc k) [] = 0 ∷ copy_into k []
copy_into (suc k) (x ∷ xs) = x ∷ copy_into k xs
