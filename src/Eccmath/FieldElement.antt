-- ===== src/Eccmath/FieldElement.antt =====
-- internal/eccmath/field_elements.go: numbers modulo a prime. A modulus of zero, which panics, is left out.
use go_bitcoin.Base.{ℕ, zero, suc, ◌+◌, ◌-◌, ◌*◌, ◌%◌, ◌^◌, Bool, ◌&&◌, Option, none, some, ◌==◌}
use go_bitcoin.Base.{if◌then◌else◌, Result, ok, err, invalid_input}

pub record FieldElement : Type 0 where
  pub num : ℕ
  pub prime : ℕ

unfoldable pub new_field_element : ℕ → ℕ → FieldElement
new_field_element num prime = record { num = num % prime; prime = prime }

unfoldable pub equals : FieldElement → FieldElement → Bool
equals a b = a.num == b.num && a.prime == b.prime

-- The test of the two primes in front of an operation
abbrev pub in_one_field : FieldElement → FieldElement → ℕ → Result FieldElement
in_one_field a b num =
    if a.prime == b.prime
    then ok (record { num = num % a.prime; prime = a.prime })
    else err invalid_input

unfoldable pub add : FieldElement → FieldElement → Result FieldElement
add a b = in_one_field a b (a.num + b.num)

-- big.Int's Mod is never negative: a - b is a + b * (p - 1) modulo p.
unfoldable pub sub : FieldElement → FieldElement → Result FieldElement
sub a b = in_one_field a b (a.num + b.num * (a.prime - 1))

unfoldable pub mul : FieldElement → FieldElement → Result FieldElement
mul a b = in_one_field a b (a.num * b.num)

-- The numbers below `k`, from the top, that are an inverse of `a` modulo `n`; there is one at most below `n`.
unfoldable pub inverse_below : ℕ → ℕ → ℕ → Option ℕ
inverse_below a n zero = none
inverse_below a n (suc k) =
    let rest = inverse_below a n k in if (a * k) % n == 1 % n then some k else rest

-- big.Int's ModInverse: nil where there is no inverse
unfoldable pub mod_inverse : ℕ → ℕ → Option ℕ
unfolding inverse_below
mod_inverse a n = inverse_below a n n

-- Where there is no inverse the new number is left at zero.
abbrev pub or_zero : Option ℕ → ℕ
or_zero none = 0
or_zero (some b) = b

unfoldable pub inv : FieldElement → FieldElement
unfolding mod_inverse
inv a = record { num = or_zero (mod_inverse a.num a.prime); prime = a.prime }

unfoldable pub div : FieldElement → FieldElement → Result FieldElement
unfolding mul inv
div a b = if a.prime == b.prime then mul a (inv b) else err invalid_input

-- The exponents are 2 and 3, and the one of Sqrt.
unfoldable pub pow : FieldElement → ℕ → FieldElement
pow a exponent = record { num = a.num ^ exponent % a.prime; prime = a.prime }

unfoldable pub is_zero : FieldElement → Bool
is_zero a = a.num == 0
