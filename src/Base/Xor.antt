-- ===== src/Base/Xor.antt =====
-- The laws of exclusive or, by its halves and its parity.
use Prim.Native.Nat.{
  ℕ, zero, suc, ◌+◌, ◌*◌, ◌/◌, ◌%◌, ◌^◌, ◌≤◌, ◌<◌, bit_xor, differ, bit_xor-bitwise,
}
use mathlib.Core.Path.{◌≡◌, refl, sym, ap, ◌∙◌}
use native.Mathlib.Nat.{le_refl, pow-suc}
use native.Mathlib.Omega.{arith}
use go_bitcoin.Base.Bits.{lowest_digit, double_pow}

differ_parity : (x y : ℕ) → x < 2 → y < 2 → differ x y ≡ (x + y) % 2
differ_parity zero y h k = omega arith
differ_parity (suc zero) zero h k = refl
differ_parity (suc zero) (suc zero) h k = refl
differ_parity (suc zero) (suc (suc y)) h k = absurd (omega arith)
differ_parity (suc (suc x)) y h k = absurd (omega arith)

bit_xor-digit : (a b : ℕ) → bit_xor a b ≡ bit_xor (a / 2) (b / 2) * 2 + differ (a % 2) (b % 2)
bit_xor-digit zero b = simp bit_xor-bitwise (omega arith)
bit_xor-digit (suc a) b = simp bit_xor-bitwise (lowest_digit (λ y. y) differ a b)

half : (a b : ℕ) → bit_xor a b / 2 ≡ bit_xor (a / 2) (b / 2)
half a b =
    omega (arith, bit_xor-digit a b, differ_parity (a % 2) (b % 2) (omega arith) (omega arith))

parity : (a b : ℕ) → bit_xor a b % 2 ≡ (a + b) % 2
parity a b =
    omega (arith, bit_xor-digit a b, differ_parity (a % 2) (b % 2) (omega arith) (omega arith))

-- Numbers with one half and one parity are the same.
same : (x y : ℕ) → x / 2 ≡ y / 2 → x % 2 ≡ y % 2 → x ≡ y
same x y h p = omega arith

pub bit_xor_zero_left : (b : ℕ) → bit_xor 0 b ≡ b
bit_xor_zero_left b = simp bit_xor-bitwise refl

bit_xor_comm_below : (n a b : ℕ) → a ≤ n → b ≤ n → bit_xor a b ≡ bit_xor b a
bit_xor_comm_below zero zero zero h k = refl
bit_xor_comm_below zero zero (suc b) h k = absurd (omega arith)
bit_xor_comm_below zero (suc a) b h k = absurd (omega arith)
bit_xor_comm_below (suc n) a b h k =
    same (bit_xor a b) (bit_xor b a)
      (half a b ∙ bit_xor_comm_below n (a / 2) (b / 2) (omega arith) (omega arith) ∙ sym (half b a))
      (omega (arith, parity a b, parity b a))

pub bit_xor_comm : (a b : ℕ) → bit_xor a b ≡ bit_xor b a
bit_xor_comm a b = bit_xor_comm_below (a + b) a b (omega arith) (omega arith)

pub bit_xor_zero : (a : ℕ) → bit_xor a 0 ≡ a
bit_xor_zero a = bit_xor_comm a 0 ∙ bit_xor_zero_left a

bit_xor_assoc_below : (n a b c : ℕ) → a ≤ n → bit_xor (bit_xor a b) c ≡ bit_xor a (bit_xor b c)
bit_xor_assoc_below zero zero b c h =
    ap (λ x. bit_xor x c) (bit_xor_zero_left b) ∙ sym (bit_xor_zero_left (bit_xor b c))
bit_xor_assoc_below zero (suc a) b c h = absurd (omega arith)
bit_xor_assoc_below (suc n) a b c h =
    same (bit_xor (bit_xor a b) c) (bit_xor a (bit_xor b c))
      (half (bit_xor a b) c
        ∙ ap (λ x. bit_xor x (c / 2)) (half a b)
        ∙ bit_xor_assoc_below n (a / 2) (b / 2) (c / 2) (omega arith)
        ∙ ap (λ x. bit_xor (a / 2) x) (sym (half b c))
        ∙ sym (half a (bit_xor b c)))
      (omega (arith, parity (bit_xor a b) c, parity a b, parity a (bit_xor b c), parity b c))

pub bit_xor_assoc : (a b c : ℕ) → bit_xor (bit_xor a b) c ≡ bit_xor a (bit_xor b c)
bit_xor_assoc a b c = bit_xor_assoc_below a a b c (le_refl a)

-- The second and the third change places.
pub bit_xor_swap : (a b c : ℕ) → bit_xor (bit_xor a b) c ≡ bit_xor (bit_xor a c) b
bit_xor_swap a b c =
    bit_xor_assoc a b c ∙ ap (λ x. bit_xor a x) (bit_xor_comm b c) ∙ sym (bit_xor_assoc a c b)

bit_xor_self_below : (n a : ℕ) → a ≤ n → bit_xor a a ≡ 0
bit_xor_self_below zero zero h = bit_xor_zero_left 0
bit_xor_self_below zero (suc a) h = absurd (omega arith)
bit_xor_self_below (suc n) a h =
    same (bit_xor a a) 0 (half a a ∙ bit_xor_self_below n (a / 2) (omega arith))
      (omega (arith, parity a a))

-- What was added is taken away again.
pub bit_xor_cancel : (a b : ℕ) → bit_xor a (bit_xor a b) ≡ b
bit_xor_cancel a b =
    sym (bit_xor_assoc a a b)
    ∙ ap (λ x. bit_xor x b) (bit_xor_self_below a a (le_refl a))
    ∙ bit_xor_zero_left b

pub bit_xor_lt : (k a b : ℕ) → a < 2 ^ k → b < 2 ^ k → bit_xor a b < 2 ^ k
bit_xor_lt zero zero zero h l = omega (arith, bit_xor_zero_left 0)
bit_xor_lt zero zero (suc b) h l = absurd (omega arith)
bit_xor_lt zero (suc a) b h l = absurd (omega arith)
bit_xor_lt (suc k) a b h l =
    let low : bit_xor (a / 2) (b / 2) < 2 ^ k =
      bit_xor_lt k (a / 2) (b / 2) (omega (arith, pow-suc 2 k)) (omega (arith, pow-suc 2 k)) in
    omega (arith, half a b, parity a b, pow-suc 2 k)

-- Bits above the others stay as they are.
pub bit_xor_fields :
    (k q r b : ℕ) → r < 2 ^ k → b < 2 ^ k → bit_xor (q * 2 ^ k + r) b ≡ q * 2 ^ k + bit_xor r b
bit_xor_fields zero q zero zero h l = omega (arith, bit_xor_zero (q * 2 ^ 0 + 0), bit_xor_zero 0)
bit_xor_fields zero q zero (suc b) h l = absurd (omega arith)
bit_xor_fields zero q (suc r) b h l = absurd (omega arith)
bit_xor_fields (suc k) q r b h l =
    let t = q * 2 ^ suc k in
    let even : t ≡ 2 * (q * 2 ^ k) = double_pow q k in
    let halved : (t + r) / 2 ≡ q * 2 ^ k + r / 2 = omega arith in
    same (bit_xor (t + r) b) (t + bit_xor r b)
      (half (t + r) b
        ∙ ap (λ x. bit_xor x (b / 2)) halved
        ∙ bit_xor_fields k q (r / 2) (b / 2) (omega (arith, pow-suc 2 k))
            (omega (arith, pow-suc 2 k))
        ∙ omega (arith, half r b))
      (omega (arith, parity (t + r) b, parity r b))

pub bit_xor_double : (a b : ℕ) → bit_xor (2 * a) (2 * b) ≡ 2 * bit_xor a b
bit_xor_double a b =
    let ha : 2 * a / 2 ≡ a = omega arith in
    let hb : 2 * b / 2 ≡ b = omega arith in
    same (bit_xor (2 * a) (2 * b)) (2 * bit_xor a b)
      (half (2 * a) (2 * b)
        ∙ ap (λ x. bit_xor x (2 * b / 2)) ha
        ∙ ap (λ x. bit_xor a x) hb
        ∙ omega arith)
      (omega (arith, parity (2 * a) (2 * b)))

pub bit_xor_shift : (k a b : ℕ) → bit_xor (a * 2 ^ k) (b * 2 ^ k) ≡ bit_xor a b * 2 ^ k
bit_xor_shift zero a b =
    let ha : a * 2 ^ 0 ≡ a = omega arith in
    let hb : b * 2 ^ 0 ≡ b = omega arith in
    ap (λ x. bit_xor x (b * 2 ^ 0)) ha ∙ ap (λ x. bit_xor a x) hb ∙ omega arith
bit_xor_shift (suc k) a b =
    ap (λ x. bit_xor x (b * 2 ^ suc k)) (double_pow a k)
    ∙ ap (λ x. bit_xor (2 * (a * 2 ^ k)) x) (double_pow b k)
    ∙ bit_xor_double (a * 2 ^ k) (b * 2 ^ k)
    ∙ ap (λ x. 2 * x) (bit_xor_shift k a b)
    ∙ sym (double_pow (bit_xor a b) k)

-- Shifted bits and low bits lie side by side.
pub bit_xor_beside : (k q b : ℕ) → b < 2 ^ k → bit_xor (q * 2 ^ k) b ≡ q * 2 ^ k + b
bit_xor_beside k q b h =
    let whole : q * 2 ^ k ≡ q * 2 ^ k + 0 = omega arith in
    ap (λ x. bit_xor x b) whole
    ∙ bit_xor_fields k q 0 b (omega arith) h
    ∙ ap (λ x. q * 2 ^ k + x) (bit_xor_zero_left b)
