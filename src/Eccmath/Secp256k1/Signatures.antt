-- ===== src/Eccmath/Secp256k1/Signatures.antt =====
-- Verify takes what Sign makes, where the points are a group.
use go_bitcoin.Base.{ℕ, zero, suc, ◌+◌, ◌*◌, ◌/◌, ◌%◌, ◌<◌, true, ltb, ◌==◌}
use go_bitcoin.Base.{Bool-cases, inl, inr, Option, none, some, ==_refl}
use go_bitcoin.Base.{Result, ok, ◌>>=◌, bind_ok_inversion, ◌≡◌, refl, sym, ap, ◌∙◌, subst, arith}
use go_bitcoin.Base.Modular.{total_factor, raw_s, total_factor-raw, total_factor-negated}
use native.Mathlib.Nat.{div-add-mod', mod-lt, zero-mod}
use go_bitcoin.Eccmath.FieldElement
use go_bitcoin.Eccmath.FieldElement.{FieldElement, inverse_below, mod_inverse, is_zero}
use go_bitcoin.Eccmath.Point.{Curve, Point, infinity, affine, add_points, must_point}
use go_bitcoin.Eccmath.Point.{add_slope, get_slope}
use go_bitcoin.Eccmath.Point.Group.{
  IsGroup, times, times-On, times-add, times-mul, scalar_mul-times, add-same,
}
use go_bitcoin.Eccmath.Point.Group.{sum-infinity, infinity-sum}
use go_bitcoin.Eccmath.Signature.{Signature}
use go_bitcoin.Eccmath.Secp256k1.{
  Secp256k1Group, scalar_base_multiply, x_num, or_nil, low_s, sign_with, sign, rand_field_element,
}
use go_bitcoin.Eccmath.Secp256k1.{verify}

inverse_below-inverse : (a n k : ℕ) {b : ℕ} → inverse_below a n k ≡ some b → (a * b) % n ≡ 1 % n
unfolding inverse_below
inverse_below-inverse a n zero e = cc
inverse_below-inverse a n (suc k) {b} e = elim (Bool-cases ((a * k) % n == 1 % n)) [
  | inl found ↦
      let same : k ≡ b = cc (rw found at e) in
      let is_inverse : (a * k) % n ≡ 1 % n = ground arith in
      subst (λ j. (a * j) % n ≡ 1 % n) same is_inverse
  | inr other ↦ inverse_below-inverse a n k (rw other at e)
]

-- ModInverse returns an inverse.
pub mod_inverse-inverse : (a n : ℕ) {b : ℕ} → mod_inverse a n ≡ some b → (a * b) % n ≡ 1 % n
unfolding mod_inverse
mod_inverse-inverse a n e = inverse_below-inverse a n n e

add_slope-infinity :
    (x1 y1 x2 y2 : FieldElement) (c d : Curve) → add_slope x1 y1 x2 y2 c ≡ ok (infinity d) → ⊥
unfolding add_slope
add_slope-infinity x1 y1 x2 y2 c d e =
    let (slope, f1, e1) = bind_ok_inversion (get_slope x1 y1 x2 y2) _ e in
    let (difference, f2, e2) =
      bind_ok_inversion (FieldElement.sub (FieldElement.pow slope 2) x1) _ e1 in
    let (x3, f3, e3) = bind_ok_inversion (FieldElement.sub difference x2) _ e2 in
    let (drop_x, f4, e4) = bind_ok_inversion (FieldElement.sub x1 x3) _ e3 in
    let (rise, f5, e5) = bind_ok_inversion (FieldElement.mul drop_x slope) _ e4 in
    let (y3, f6, e6) = bind_ok_inversion (FieldElement.sub rise y1) _ e5 in cc e6

-- Points whose sum is at infinity have one x.
opposite_x :
    (x1 y1 x2 y2 : FieldElement) (c d f : Curve)
    → add_points (affine x1 y1 c) (affine x2 y2 d) ≡ ok (infinity f)
    → x1.num ≡ x2.num
unfolding add_points
opposite_x x1 y1 x2 y2 c d f e = elim (Bool-cases (FieldElement.equals x1 x2)) [
  | inl same ↦ unfold FieldElement.equals in ground (arith, same)
  | inr differ ↦ absurd (add_slope-infinity x1 y1 x2 y2 c f (rw differ at e))
]

ok_eq : {p q : Point} → ◌≡◌ {A = Result Point} (ok p) (ok q) → p ≡ q
ok_eq e = cc

or_nil-some : (o : Option ℕ) {b : ℕ} → or_nil o ≡ ok b → o ≡ some b
or_nil-some none e = cc
or_nil-some (some a) e = cc

-- What the parts of a signature are
sign_with-parts :
    (gr : Secp256k1Group) (key z k : ℕ) (sig : Signature)
    → sign_with gr key z k ≡ ok sig
    → (p : Point) × (x : ℕ) × (k_inv : ℕ) × (scalar_base_multiply gr k ≡ ok p)
      × (x_num p ≡ ok x)
      × (mod_inverse k gr.order ≡ some k_inv)
      × (sig.r ≡ x % gr.order)
      × (sig.s ≡ low_s gr.order (raw_s gr.order z (x % gr.order) key k_inv))
unfolding sign_with
sign_with-parts gr key z k sig e =
    let (p, found, e1) = bind_ok_inversion (scalar_base_multiply gr k) _ e in
    let (x, x_found, e2) = bind_ok_inversion (x_num p) _ e1 in
    let (k_inv, inverse, e3) = bind_ok_inversion (or_nil (mod_inverse k gr.order)) _ e2 in
    let same : sig ≡ record {
      r = x % gr.order;
      s = low_s gr.order (raw_s gr.order z (x % gr.order) key k_inv);
    } =
      cc in
    (
      p,
      x,
      k_inv,
      found,
      x_found,
      or_nil-some (mod_inverse k gr.order) inverse,
      ap (λ (t : Signature). t.r) same,
      ap (λ (t : Signature). t.s) same,
    )

-- A group with its generator: the multiples of the generator, which come back to infinity at the order
module _ (gr : Secp256k1Group) {On : Point → Type 0} {sum : Point → Point → Point}
    (g : IsGroup gr.curve On sum) (on : On gr.generator) where
  abbrev multiple : ℕ → Point
  multiple n = times g n gr.generator

  scalar_base_multiply_eq : (n : ℕ) → scalar_base_multiply gr n ≡ ok (multiple n)
  unfolding scalar_base_multiply must_point
  scalar_base_multiply_eq n = rw (scalar_mul-times g n gr.generator on) refl

  times-infinity : (n : ℕ) → times g n (infinity gr.curve) ≡ infinity gr.curve
  unfolding times
  times-infinity zero = refl
  times-infinity (suc n) = rw (times-infinity n) (sum-infinity g (infinity gr.curve) g.infinity-On)

  module _ (back : multiple gr.order ≡ infinity gr.curve) where
    multiple-mod : (n : ℕ) → multiple n ≡ multiple (n % gr.order)
    multiple-mod n =
        let rest = times-On g (n % gr.order) gr.generator on in
        sym (ap multiple (div-add-mod' n gr.order))
        ∙ times-add g (n / gr.order * gr.order) (n % gr.order) gr.generator on
        ∙ ap (λ p. sum p (multiple (n % gr.order)))
            (times-mul g (n / gr.order) gr.order gr.generator on
              ∙ ap (times g (n / gr.order)) back
              ∙ times-infinity (n / gr.order))
        ∙ infinity-sum g (multiple (n % gr.order)) rest

    multiple_cong : (a b : ℕ) → a % gr.order ≡ b % gr.order → multiple a ≡ multiple b
    multiple_cong a b e = multiple-mod a ∙ ap multiple e ∙ sym (multiple-mod b)

    multiple-zero : multiple 0 ≡ infinity gr.curve
    unfolding times
    multiple-zero = refl

    sum-opposite :
        (a b : ℕ) → (a + b) % gr.order ≡ 0 → sum (multiple a) (multiple b) ≡ infinity gr.curve
    sum-opposite a b zero_sum =
        sym (times-add g a b gr.generator on)
        ∙ multiple_cong (a + b) 0 (zero_sum ∙ sym (zero-mod gr.order))
        ∙ multiple-zero

    -- The point of a multiple has a given x.
    abbrev HasX : ℕ → ℕ → Type 0
    HasX a n =
        (x : FieldElement) × (y : FieldElement) × (c : Curve) × (multiple a ≡ affine x y c)
        × (x.num ≡ n)

    opposite-HasX_at :
        (p q : Point) (a b n : ℕ)
        → multiple a ≡ p
        → multiple b ≡ q
        → (a + b) % gr.order ≡ 0
        → (x : FieldElement) (y : FieldElement) (c : Curve) → q ≡ affine x y c
        → x.num ≡ n
        → HasX a n
    opposite-HasX_at (infinity d) q a b n at_a at_b zero_sum x y c is_q e =
        let d_eq = g.On-curve (infinity d) (subst On at_a (times-On g a gr.generator on)) in
        let there : sum (infinity gr.curve) (multiple b) ≡ infinity gr.curve =
          ap (λ p. sum p (multiple b)) (sym (at_a ∙ ap infinity d_eq))
          ∙ sum-opposite a b zero_sum in
        let here = infinity-sum g (multiple b) (times-On g b gr.generator on) in cc
    opposite-HasX_at (affine x' y' c') q a b n at_a at_b zero_sum x y c is_q e =
        let on_a = times-On g a gr.generator on in
        let on_b = times-On g b gr.generator on in
        let added : add_points (multiple a) (multiple b) ≡ ok (infinity gr.curve) =
          sym (
            add-same gr.curve (multiple a) (multiple b) (g.On-curve (multiple a) on_a)
              (g.On-curve (multiple b) on_b))
          ∙ g.add_eq (multiple a) (multiple b) on_a on_b
          ∙ ap ok (sum-opposite a b zero_sum) in
        let added' : add_points (affine x' y' c') (affine x y c) ≡ ok (infinity gr.curve) =
          subst (λ p. add_points p (affine x y c) ≡ ok (infinity gr.curve)) at_a
            (subst (λ p. add_points (multiple a) p ≡ ok (infinity gr.curve)) (at_b ∙ is_q) added) in
        (x', y', c', at_a, opposite_x x' y' x y c' c gr.curve added' ∙ e)

    opposite-HasX : (a b n : ℕ) → (a + b) % gr.order ≡ 0 → HasX b n → HasX a n
    opposite-HasX a b n zero_sum (x, y, c, at_b, e) =
        opposite-HasX_at (multiple a) (multiple b) a b n refl refl zero_sum x y c at_b e

    same-HasX : (a b n : ℕ) → a % gr.order ≡ b % gr.order → HasX b n → HasX a n
    same-HasX a b n e (x, y, c, at_b, same) = (x, y, c, multiple_cong a b e ∙ at_b, same)

    x_num-HasX : (a n : ℕ) (p : Point) → multiple a ≡ p → x_num p ≡ ok n → HasX a n
    unfolding x_num
    x_num-HasX a n (infinity c) e f = cc
    x_num-HasX a n (affine x y c) e f = (x, y, c, e, cc)

    -- The multiple that Verify computes has the x of the nonce's point, whether s or n - s was taken.
    total-HasX :
        (z key k k_inv s_inv x : ℕ)
        → 0 < gr.order
        → (k * k_inv) % gr.order ≡ 1 % gr.order
        → (low_s gr.order (raw_s gr.order z (x % gr.order) key k_inv) * s_inv) % gr.order
          ≡ 1 % gr.order
        → HasX k x
        → HasX (total_factor gr.order z (x % gr.order) key s_inv) x
    unfolding low_s
    total-HasX z key k k_inv s_inv x p k_inverse s_inverse at_k =
        let n = gr.order in
        let r = x % n in
        let s = raw_s n z r key k_inv in
        let w = total_factor n z r key s_inv in
        let below : s < n = mod-lt ((z + r * key) * k_inv) p in
        elim (Bool-cases (ltb (n / 2) s)) [
          | inl high ↦
              opposite-HasX w k x
                (total_factor-negated n z r key k k_inv s_inv k_inverse (omega arith)
                  (rw high at s_inverse))
                at_k
          | inr low ↦
              same-HasX w k x
                (total_factor-raw n z r key k k_inv s_inv k_inverse (rw low at s_inverse)) at_k
        ]

    verify_eq :
        (key z s_inv : ℕ) (sig : Signature)
        → mod_inverse sig.s gr.order ≡ some s_inv
        → verify gr (multiple key) z sig ≡ (do
          x ← x_num (multiple (total_factor gr.order z sig.r key s_inv))
          ok (x % gr.order == sig.r))
    unfolding verify
    verify_eq key z s_inv sig has_inverse =
        let u = z * s_inv % gr.order in
        let v = sig.r * s_inv % gr.order in
        let on_key = times-On g key gr.generator on in
        let both : sum (multiple u) (times g v (multiple key)) ≡ multiple (u + v * key) =
          ap (sum (multiple u)) (sym (times-mul g v key gr.generator on))
          ∙ sym (times-add g u (v * key) gr.generator on) in
        rw
          (
            has_inverse,
            scalar_base_multiply_eq u,
            scalar_mul-times g v (multiple key) on_key,
            g.add_eq (multiple u) (times g v (multiple key)) (times-On g u gr.generator on)
                (times-On g v (multiple key) on_key),
            both,
          )
          refl

    verified :
        (w n : ℕ) (sig : Signature)
        → HasX w n
        → sig.r ≡ n % gr.order
        → (do x ← x_num (multiple w); ok (x % gr.order == sig.r)) ≡ ok true
    unfolding x_num
    verified w n sig (x, y, c, at_w, e) r_eq = rw (at_w, e, r_eq, ==_refl (n % gr.order)) refl

    -- A signature of a hash that is made with a key, for any nonce, is taken by Verify under the key's public point,
    -- where s has an inverse modulo the order.
    verify-sign_with :
        (key z k s_inv : ℕ) (sig : Signature) (public_key : Point)
        → 0 < gr.order
        → scalar_base_multiply gr key ≡ ok public_key
        → sign_with gr key z k ≡ ok sig
        → mod_inverse sig.s gr.order ≡ some s_inv
        → verify gr public_key z sig ≡ ok true
    verify-sign_with key z k s_inv sig public_key p made signed has_inverse =
        let (point, x, k_inv, at_k, x_found, k_inverse, r_eq, s_eq) =
          sign_with-parts gr key z k sig signed in
        let nonce : HasX k x =
          x_num-HasX k x point (ok_eq (sym (scalar_base_multiply_eq k) ∙ at_k)) x_found in
        let w_has : HasX (total_factor gr.order z (x % gr.order) key s_inv) x =
          total-HasX z key k k_inv s_inv x p (mod_inverse-inverse k gr.order k_inverse)
            (subst (λ t. (t * s_inv) % gr.order ≡ 1 % gr.order) s_eq
              (mod_inverse-inverse sig.s gr.order has_inverse))
            nonce in
        let w_has' : HasX (total_factor gr.order z sig.r key s_inv) x =
          subst (λ t. HasX (total_factor gr.order z t key s_inv) x) (sym r_eq) w_has in
        ap (λ q. verify gr q z sig) (sym (ok_eq (sym (scalar_base_multiply_eq key) ∙ made)))
        ∙ verify_eq key z s_inv sig has_inverse
        ∙ verified (total_factor gr.order z sig.r key s_inv) x sig w_has' r_eq

    -- A signature of a hash that Sign makes with a key, whatever random number it draws, is taken by Verify under the
    -- key's public point, where s has an inverse modulo the order.
    pub verify-sign :
        (key z s_inv : ℕ) (random : Result ℕ) (sig : Signature) (public_key : Point)
        → 0 < gr.order
        → scalar_base_multiply gr key ≡ ok public_key
        → sign gr random key z ≡ ok sig
        → mod_inverse sig.s gr.order ≡ some s_inv
        → verify gr public_key z sig ≡ ok true
    unfolding sign
    verify-sign key z s_inv random sig public_key p made signed has_inverse =
        let (k, drawn, signed') = bind_ok_inversion (rand_field_element random) _ signed in
        verify-sign_with key z k s_inv sig public_key p made signed' has_inverse
