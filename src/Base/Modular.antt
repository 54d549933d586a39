-- ===== src/Base/Modular.antt =====
-- Congruences: numbers with the same remainder.
use Prim.Native.Nat.{ℕ, ◌+◌, ◌-◌, ◌*◌, ◌/◌, ◌%◌, ◌≤◌}
use mathlib.Core.Path.{◌≡◌, sym, ap, ap₂, ◌∙◌}
use native.Mathlib.Nat.{
  add-mod, mod-mod, mod-add-div, add-mul-mod_self_left, mul_comm, mul_assoc, add-mul, mul-mod_right,
}
use native.Mathlib.Omega.{arith}

pub add_cong : (n a a' b b' : ℕ) → a % n ≡ a' % n → b % n ≡ b' % n → (a + b) % n ≡ (a' + b') % n
add_cong n a a' b b' e f = add-mod a b n ∙ ap₂ (λ x y. (x + y) % n) e f ∙ sym (add-mod a' b' n)

mod-mul : (n a b : ℕ) → (a % n * b) % n ≡ (a * b) % n
mod-mul n a b =
    let parts : a * b ≡ a % n * b + n * (a / n * b) =
      ap (λ x. x * b) (sym (mod-add-div a n))
      ∙ add-mul (a % n) (n * (a / n)) b
      ∙ ap (λ x. a % n * b + x) (mul_assoc n (a / n) b) in
    sym (ap (λ x. x % n) parts ∙ add-mul-mod_self_left (a % n * b) n (a / n * b))

pub mul_cong_left : (n a a' b : ℕ) → a % n ≡ a' % n → (a * b) % n ≡ (a' * b) % n
mul_cong_left n a a' b e = sym (mod-mul n a b) ∙ ap (λ x. (x * b) % n) e ∙ mod-mul n a' b

pub mul_cong_right : (n a b b' : ℕ) → b % n ≡ b' % n → (a * b) % n ≡ (a * b') % n
mul_cong_right n a b b' e =
    ap (λ x. x % n) (mul_comm a b) ∙ mul_cong_left n b b' a e ∙ ap (λ x. x % n) (mul_comm b' a)

swap_factors : (a b c d : ℕ) → a * b * (c * d) ≡ a * d * (b * c)
swap_factors a b c d = omega arith

common_factor : (z r key s : ℕ) → z * s + r * s * key ≡ (z + r * key) * s
common_factor z r key s = omega arith

parts_of : (n s i k : ℕ) → s ≤ n → s * i * k + (n - s) * i * k ≡ n * (i * k)
parts_of n s i k h =
    let whole : s + (n - s) ≡ n = omega arith in
    sym (add-mul (s * i) ((n - s) * i) k)
    ∙ ap (λ x. x * k) (sym (add-mul s (n - s) i))
    ∙ mul_assoc (s + (n - s)) i k
    ∙ ap (λ x. x * (i * k)) whole

-- What ECDSA computes with a nonce k: s before the choice of the lower one, and the multiple of the generator that
-- the check arrives at.
abbrev pub raw_s : ℕ → ℕ → ℕ → ℕ → ℕ → ℕ
raw_s n z r key k_inv = (z + r * key) * k_inv % n

abbrev pub total_factor : ℕ → ℕ → ℕ → ℕ → ℕ → ℕ
total_factor n z r key s_inv = z * s_inv % n + r * s_inv % n * key

module _ (n z r key k k_inv s_inv : ℕ) (inverse : (k * k_inv) % n ≡ 1 % n) where
  pub total_factor_cong :
      (total_factor n z r key s_inv) % n ≡ ((raw_s n z r key k_inv) * s_inv * k) % n
  total_factor_cong =
      let t = z + r * key in
      let sum : z * s_inv + r * s_inv * key ≡ t * s_inv = common_factor z r key s_inv in
      let one : t * s_inv * 1 ≡ t * s_inv = omega arith in
      let shuffle : t * s_inv * (k * k_inv) ≡ t * k_inv * (s_inv * k) =
        swap_factors t s_inv k k_inv in
      add_cong n (z * s_inv % n) (z * s_inv) (r * s_inv % n * key) (r * s_inv * key)
        (mod-mod (z * s_inv) n) (mod-mul n (r * s_inv) key)
      ∙ ap (λ x. x % n) (sum ∙ sym one)
      ∙ mul_cong_right n (t * s_inv) 1 (k * k_inv) (sym inverse)
      ∙ ap (λ x. x % n) shuffle
      ∙ sym (mod-mul n (t * k_inv) (s_inv * k))
      ∙ ap (λ x. x % n) (sym (mul_assoc (raw_s n z r key k_inv) s_inv k))

  -- With s itself
  pub total_factor-raw :
      ((raw_s n z r key k_inv) * s_inv) % n ≡ 1 % n → (total_factor n z r key s_inv) % n ≡ k % n
  total_factor-raw e =
      total_factor_cong
      ∙ mul_cong_left n ((raw_s n z r key k_inv) * s_inv) 1 k e
      ∙ ap (λ x. x % n) (omega arith)

  -- With n - s
  pub total_factor-negated :
      (raw_s n z r key k_inv) ≤ n
      → ((n - (raw_s n z r key k_inv)) * s_inv) % n ≡ 1 % n
      → ((total_factor n z r key s_inv) + k) % n ≡ 0
  total_factor-negated b e =
      add_cong n (total_factor n z r key s_inv) ((raw_s n z r key k_inv) * s_inv * k) k
        ((n - (raw_s n z r key k_inv)) * s_inv * k) total_factor_cong
        (sym (
          mul_cong_left n ((n - (raw_s n z r key k_inv)) * s_inv) 1 k e
          ∙ ap (λ x. x % n) (omega arith)))
      ∙ ap (λ x. x % n) (parts_of n (raw_s n z r key k_inv) s_inv k b)
      ∙ mul-mod_right n (s_inv * k)
