-- ===== src/Base/Bytes/Reading.antt =====
-- What a read takes from the front of its reader.
use go_bitcoin.Base.Tests.{le→leb, ==_refl}
use go_bitcoin.Base.Lists.{length, length-append, length-take}
use go_bitcoin.Base.Lists.{take-append, drop-append, take-append-drop}
use go_bitcoin.Base.Results.{ok}
use go_bitcoin.Base.Bytes.{copy_into, read}
use go_bitcoin.Base.Bytes.{Reader, bytes_reader, bytes_buffer, read_full, read_exactly}
use Prim.Native.Nat.{ℕ, zero, suc, ◌+◌, ◌≤◌, ◌<◌}
use mathlib.Core.Path.{◌≡◌, refl, ap}
use mathlib.Core.List.{List, [], ◌∷◌, ◌++◌}
use native.Mathlib.Omega.{arith}

-- io.ReadFull hands over a whole prefix of the wanted length.
pub read_full-append :
    (n : ℕ) (xs rest : List ℕ) → length xs ≡ n → read_full n (xs ++ rest) ≡ ok (xs, rest)
unfolding read_full
read_full-append n xs rest e = rw (
  ← e,
  le→leb (length xs) (length (xs ++ rest)) (omega (arith, length-append xs rest)),
  take-append,
  drop-append,
)

pub read_full_takes :
    (n : ℕ) (bs xs rest : List ℕ)
    → read_full n bs ≡ ok (xs, rest)
    → (bs ≡ xs ++ rest) × (length xs ≡ n)
unfolding read_full
read_full_takes n bs xs rest e = ground (arith, take-append-drop n bs, length-take n bs)

pub read_exactly-append :
    (r : Reader) (n : ℕ) (xs rest : List ℕ)
    → 0 < n
    → length xs ≡ n
    → read_exactly r n (xs ++ rest) ≡ ok (xs, rest)
unfolding read_exactly
read_exactly-append r n [] rest p e = absurd (omega arith)
read_exactly-append bytes_reader n (x ∷ xs) rest p e =
    rw (← e, take-append, drop-append) (rw (==_refl (length (x ∷ xs))))
read_exactly-append bytes_buffer n (x ∷ xs) rest p e =
    rw (← e, take-append, drop-append) (rw (==_refl (length (x ∷ xs))))

pub read_exactly_takes :
    (r : Reader) (n : ℕ) (bs xs rest : List ℕ)
    → read_exactly r n bs ≡ ok (xs, rest)
    → (bs ≡ xs ++ rest) × (length xs ≡ n)
unfolding read_exactly
read_exactly_takes bytes_reader n [] xs rest e = cc
read_exactly_takes bytes_buffer n [] xs rest e = ground arith
read_exactly_takes bytes_reader n (b ∷ bs) xs rest e = ground (arith, take-append-drop n (b ∷ bs))
read_exactly_takes bytes_buffer n (b ∷ bs) xs rest e = ground (arith, take-append-drop n (b ∷ bs))

pub read_exactly_shrinks :
    (r : Reader) (n : ℕ) (bs xs rest : List ℕ)
    → read_exactly r n bs ≡ ok (xs, rest)
    → length rest + n ≡ length bs
read_exactly_shrinks r n bs xs rest e =
    let (split, len) = read_exactly_takes r n bs xs rest e in
    rw split (omega (arith, length-append xs rest))

pub length-copy_into : (k : ℕ) (xs : List ℕ) → length (copy_into k xs) ≡ k
unfolding copy_into
length-copy_into zero xs = refl
length-copy_into (suc k) [] = ap suc (length-copy_into k [])
length-copy_into (suc k) (x ∷ xs) = ap suc (length-copy_into k xs)

pub copy_into_whole : (xs : List ℕ) → copy_into (length xs) xs ≡ xs
unfolding copy_into
copy_into_whole [] = refl
copy_into_whole (x ∷ xs) = ap (λ l. x ∷ l) (copy_into_whole xs)

-- A read in front of more bytes, of no byte at all included.
pub read-append :
    (r : Reader) (xs rest : List ℕ)
    → 1 ≤ length rest
    → read r (length xs) (xs ++ rest) ≡ ok (xs, rest)
unfolding read
read-append r xs [] h = absurd (omega arith)
read-append bytes_reader [] (y ∷ rest) h = refl
read-append bytes_buffer [] (y ∷ rest) h = refl
read-append bytes_reader (x ∷ xs) (y ∷ rest) h =
    rw (take-append (x ∷ xs) (y ∷ rest), drop-append) refl
read-append bytes_buffer (x ∷ xs) (y ∷ rest) h =
    rw (take-append (x ∷ xs) (y ∷ rest), drop-append) refl
