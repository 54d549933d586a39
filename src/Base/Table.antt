-- ===== src/Base/Table.antt =====
-- Facts about one byte, checked by evaluation at every value.
use Prim.Native.Nat.{ℕ, zero, suc, ◌+◌, ◌*◌, ◌/◌, ◌<◌, bit_and, bit_or}
use mathlib.Core.Path.{◌≡◌, refl}
use mathlib.Core.Bool.{Bool, true, ◌&&◌}
use native.Mathlib.Omega.{arith}
use go_bitcoin.Base.Tests.{◌==◌}

unfoldable pub same_below : (f g : ℕ → ℕ) → ℕ → Bool
same_below f g zero = true
same_below f g (suc n) = f n == g n && same_below f g n

pub same_below_sound : (f g : ℕ → ℕ) (n x : ℕ) → same_below f g n ≡ true → x < n → f x ≡ g x
unfolding same_below
same_below_sound f g zero x e h = absurd (omega arith)
same_below_sound f g (suc n) x e h = ground (arith, same_below_sound f g n x)

pub byte-and-0x80 : (b : ℕ) → b < 256 → bit_and b 0x80 ≡ b / 128 * 128
unfolding same_below
byte-and-0x80 b = same_below_sound (λ x. bit_and x 0x80) (λ x. x / 128 * 128) 256 b refl

pub byte-or-0x80 : (b : ℕ) → b < 128 → bit_or b 0x80 ≡ b + 128
unfolding same_below
byte-or-0x80 b = same_below_sound (λ x. bit_or x 0x80) (λ x. x + 128) 128 b refl
