-- ===== src/Eccmath/Point/Group.antt =====
-- The double-and-add loop against repeated addition, on points that the addition makes a group.
use go_bitcoin.Base.{ℕ, zero, suc, ◌+◌, ◌*◌, ◌/◌, ◌%◌, ◌≤◌, true, ◌==◌, Bool-cases}
use go_bitcoin.Base.{if◌then◌else◌, inl, inr, ok, ==_refl}
use go_bitcoin.Base.{◌≡◌, refl, sym, ap, ◌∙◌, arith}
use go_bitcoin.Eccmath.FieldElement
use go_bitcoin.Eccmath.FieldElement.{FieldElement, is_zero}
use go_bitcoin.Eccmath.Point.{
  Curve, Point, infinity, affine, curve_of, curve_equals, add, add_points, add_bit,
}
use go_bitcoin.Eccmath.Point.{scalar_loop, scalar_mul}

field_equals_self : (a : FieldElement) → FieldElement.equals a a ≡ true
unfolding FieldElement.equals
field_equals_self a = rw (==_refl a.num, ==_refl a.prime) refl

pub curve_equals_self : (c : Curve) → curve_equals c c ≡ true
unfolding curve_equals
curve_equals_self c = rw (field_equals_self c.a, field_equals_self c.b) refl

pub add-same :
    (c : Curve) (p q : Point) → curve_of p ≡ c → curve_of q ≡ c → add p q ≡ add_points p q
unfolding add
add-same c p q ep eq = rw (ep, eq, curve_equals_self c) refl

add_points-infinity : (c : Curve) (p : Point) → curve_of p ≡ c → add_points p (infinity c) ≡ ok p
unfolding add_points
add_points-infinity c (infinity d) e = rw e refl
add_points-infinity c (affine x y d) e = refl

infinity-add_points : (c : Curve) (p : Point) → add_points (infinity c) p ≡ ok p
unfolding add_points
infinity-add_points c p = refl

-- Points of a curve on which Add is an associative operation: `sum` is the value that it returns.
pub record IsGroup (c : Curve) (On : Point → Type 0) (sum : Point → Point → Point) : Type 0 where
  pub add_eq : (p q : Point) → On p → On q → add p q ≡ ok (sum p q)
  pub sum-On : (p q : Point) → On p → On q → On (sum p q)
  pub sum_assoc : (p q r : Point) → On p → On q → On r → sum (sum p q) r ≡ sum p (sum q r)
  pub infinity-On : On (infinity c)
  pub On-curve : (p : Point) → On p → curve_of p ≡ c

module _ {c : Curve} {On : Point → Type 0} {sum : Point → Point → Point}
    (g : IsGroup c On sum) where
  pub sum-infinity : (p : Point) → On p → sum p (infinity c) ≡ p
  sum-infinity p on =
      let e = g.add_eq p (infinity c) on g.infinity-On in
      let e' : add p (infinity c) ≡ ok p =
        add-same c p (infinity c) (g.On-curve p on) refl
        ∙ add_points-infinity c p (g.On-curve p on) in
      cc

  pub infinity-sum : (p : Point) → On p → sum (infinity c) p ≡ p
  infinity-sum p on =
      let e = g.add_eq (infinity c) p g.infinity-On on in
      let e' : add (infinity c) p ≡ ok p =
        add-same c (infinity c) p refl (g.On-curve p on) ∙ infinity-add_points c p in
      cc

  -- `n` copies of a point added up
  unfoldable pub times : ℕ → Point → Point
  times zero p = infinity c
  times (suc n) p = sum (times n p) p

  pub times-On : (n : ℕ) (p : Point) → On p → On (times n p)
  unfolding times
  times-On zero p on = g.infinity-On
  times-On (suc n) p on = g.sum-On (times n p) p (times-On n p on) on

  times-one : (p : Point) → On p → times 1 p ≡ p
  unfolding times
  times-one p on = infinity-sum p on

  pub times-add : (a b : ℕ) (p : Point) → On p → times (a + b) p ≡ sum (times a p) (times b p)
  unfolding times
  times-add a zero p on =
      let e : a + 0 ≡ a = omega arith in rw e (sym (sum-infinity (times a p) (times-On a p on)))
  times-add a (suc b) p on =
      let e : a + suc b ≡ suc (a + b) = omega arith in
      rw (e, times-add a b p on)
        (g.sum_assoc (times a p) (times b p) p (times-On a p on) (times-On b p on) on)

  pub times-mul : (a b : ℕ) (p : Point) → On p → times (a * b) p ≡ times a (times b p)
  unfolding times
  times-mul zero b p on = let e : 0 * b ≡ 0 = omega arith in rw e refl
  times-mul (suc a) b p on =
      let e : suc a * b ≡ a * b + b = grind arith in
      rw (e, times-add (a * b) b p on, times-mul a b p on) refl

  times-double : (n : ℕ) (p : Point) → On p → times n (sum p p) ≡ times (n * 2) p
  unfolding times
  times-double n p on = sym (times-mul n 2 p on ∙ ap (λ q. times n (sum q p)) (infinity-sum p on))

  -- What one round does with the lowest bit
  abbrev with_bit : ℕ → Point → Point → Point
  with_bit n result addend = if n % 2 == 1 then sum result addend else result

  add_bit_eq :
      (n : ℕ) (result addend : Point)
      → On result
      → On addend
      → add_bit n result addend ≡ ok (with_bit n result addend)
  unfolding add_bit
  add_bit_eq n result addend on on' = elim (Bool-cases (n % 2 == 1)) [
    | inl odd ↦ rw odd (g.add_eq result addend on on')
    | inr even ↦ rw even refl
  ]

  with_bit-On :
      (n : ℕ) (result addend : Point) → On result → On addend → On (with_bit n result addend)
  with_bit-On n result addend on on' = elim (Bool-cases (n % 2 == 1)) [
    | inl odd ↦ rw odd (g.sum-On result addend on on')
    | inr even ↦ rw even on
  ]

  with_bit-times :
      (n : ℕ) (result addend : Point)
      → On result
      → On addend
      → sum (with_bit n result addend) (times (n / 2) (sum addend addend))
        ≡ sum result (times n addend)
  with_bit-times n result addend on on' = elim (Bool-cases (n % 2 == 1)) [
    | inl odd ↦
        let half : 1 + n / 2 * 2 ≡ n = ground arith in
        rw (odd, times-double (n / 2) addend on')
          (g.sum_assoc result addend (times (n / 2 * 2) addend) on on'
              (times-On (n / 2 * 2) addend on')
            ∙ ap (λ q. sum result (sum q (times (n / 2 * 2) addend))) (sym (times-one addend on'))
            ∙ ap (sum result) (sym (times-add 1 (n / 2 * 2) addend on'))
            ∙ ap (λ k. sum result (times k addend)) half)
    | inr even ↦
        let half : n / 2 * 2 ≡ n = ground arith in
        rw (even, times-double (n / 2) addend on', half) refl
  ]

  scalar_loop_eq :
      (fuel n : ℕ) (result addend : Point)
      → n ≤ fuel
      → On result
      → On addend
      → scalar_loop fuel n result addend ≡ ok (sum result (times n addend))
  unfolding scalar_loop
  scalar_loop_eq fuel zero result addend b on on' =
      unfold times in ap ok (sym (sum-infinity result on))
  scalar_loop_eq zero (suc n) result addend b on on' = absurd (omega arith)
  scalar_loop_eq (suc fuel) (suc n) result addend b on on' =
      rw (add_bit_eq (suc n) result addend on on', g.add_eq addend addend on' on')
        (scalar_loop_eq fuel (suc n / 2) (with_bit (suc n) result addend) (sum addend addend)
            (omega arith) (with_bit-On (suc n) result addend on on')
            (g.sum-On addend addend on' on')
          ∙ ap ok (with_bit-times (suc n) result addend on on'))

  pub scalar_mul-times : (n : ℕ) (p : Point) → On p → scalar_mul n p ≡ ok (times n p)
  unfolding scalar_mul
  scalar_mul-times n p on = rw (g.On-curve p on) (
      scalar_loop_eq n n (infinity c) p (omega arith) g.infinity-On on
      ∙ ap ok (infinity-sum (times n p) (times-On n p on)))
