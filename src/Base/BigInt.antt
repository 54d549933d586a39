-- ===== src/Base/BigInt.antt =====
-- SetBytes and Bytes of math/big, for integers that are not negative: big-endian bytes, with no
-- leading zero.
use Prim.Native.Nat.{ℕ, zero, suc, ◌/◌, ◌%◌, ◌^◌, ◌≤◌, ◌<◌}
use mathlib.Core.Path.{◌≡◌, refl}
use mathlib.Core.List.{List, [], ◌∷◌, ◌++◌, reverse, reverse-cons, reverse-reverse}
use native.Mathlib.Nat.{pow-suc}
use native.Mathlib.Omega.{arith}
use go_bitcoin.Base.Tests.{◌==◌, if◌then◌else◌}
use go_bitcoin.Base.Lists.{length, All, length-append}
use go_bitcoin.Base.Bytes.{IsByte, le_decode}

-- The digits of `n` to the base 256, lowest first. The value itself is fuel enough.
unfoldable pub le_digits : ℕ → ℕ → List ℕ
le_digits zero n = []
le_digits (suc fuel) n =
    let rest = le_digits fuel (n / 256) in if n == 0 then [] else (n % 256) ∷ rest

unfoldable pub to_bytes : ℕ → List ℕ
to_bytes n = reverse (le_digits n n)

unfoldable pub set_bytes : List ℕ → ℕ
set_bytes bs = le_decode (reverse bs)

le_decode-le_digits : (fuel n : ℕ) → n ≤ fuel → le_decode (le_digits fuel n) ≡ n
unfolding le_digits le_decode
le_decode-le_digits zero n h = omega arith
le_decode-le_digits (suc fuel) n h = ground (arith, le_decode-le_digits fuel (n / 256))

-- SetBytes reads back what Bytes wrote.
pub set_bytes-to_bytes : (n : ℕ) → set_bytes (to_bytes n) ≡ n
unfolding set_bytes to_bytes
set_bytes-to_bytes n = rw reverse-reverse (le_decode-le_digits n n (omega arith))

length-le_digits : (k fuel n : ℕ) → n < 256 ^ k → length (le_digits fuel n) ≤ k
unfolding le_digits
length-le_digits k zero n h = omega arith
length-le_digits zero (suc fuel) n h = ground arith
length-le_digits (suc k) (suc fuel) n h =
    ground (arith, pow-suc 256 k, length-le_digits k fuel (n / 256))

pub length-reverse : (bs : List ℕ) → length (reverse bs) ≡ length bs
length-reverse [] = refl
length-reverse (b ∷ bs) =
    rw reverse-cons (omega (arith, length-append (reverse bs) (b ∷ []), length-reverse bs))

pub length-to_bytes : (k n : ℕ) → n < 256 ^ k → length (to_bytes n) ≤ k
unfolding to_bytes
length-to_bytes k n h = rw length-reverse (length-le_digits k n n h)

le_decode-append_zero : (bs : List ℕ) → le_decode (bs ++ (0 ∷ [])) ≡ le_decode bs
unfolding le_decode
le_decode-append_zero [] = refl
le_decode-append_zero (b ∷ bs) = omega (arith, le_decode-append_zero bs)

-- A leading zero does not count.
pub set_bytes-zero : (bs : List ℕ) → set_bytes (0 ∷ bs) ≡ set_bytes bs
unfolding set_bytes
set_bytes-zero bs = rw reverse-cons (le_decode-append_zero (reverse bs))

-- The most significant digit, which stands last, is not zero.
abbrev pub NoTopZero : List ℕ → Type 0
NoTopZero [] = Unit
NoTopZero (b ∷ []) = 0 < b
NoTopZero (b ∷ c ∷ bs) = NoTopZero (c ∷ bs)

le_decode-positive : (b : ℕ) (bs : List ℕ) → NoTopZero (b ∷ bs) → 0 < le_decode (b ∷ bs)
unfolding le_decode
le_decode-positive b [] h = omega arith
le_decode-positive b (c ∷ bs) h = omega (arith, le_decode-positive c bs h)

pub le_digits-le_decode :
    (fuel : ℕ) (bs : List ℕ)
    → All IsByte bs
    → NoTopZero bs
    → le_decode bs ≤ fuel
    → le_digits fuel (le_decode bs) ≡ bs
unfolding le_digits le_decode
le_digits-le_decode zero [] hs top h = refl
le_digits-le_decode (suc fuel) [] hs top h = ground arith
le_digits-le_decode zero (b ∷ bs) hs top h = absurd (omega (arith, le_decode-positive b bs top))
le_digits-le_decode (suc fuel) (b ∷ []) (hb, hs) top h =
    ground (arith, le_digits-le_decode fuel [] tt tt)
le_digits-le_decode (suc fuel) (b ∷ c ∷ bs) (hb, hs) top h =
    ground (arith, le_decode-positive c bs top, le_digits-le_decode fuel (c ∷ bs) hs top)
