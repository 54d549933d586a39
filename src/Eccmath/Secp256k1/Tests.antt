-- ===== src/Eccmath/Secp256k1/Tests.antt =====
-- Signatures on the curve y^2 = x^3 + 7 over the field of 13 elements, whose seven points are the multiples of one.
use go_bitcoin.Base.{
  ℕ, zero, suc, ◌+◌, ◌%◌, ◌<◌, true, some, Result, ok, err, panic, out_of_fuel, ◌≡◌, refl, sym, ap,
  ap₂, ◌∙◌, subst, arith,
}
use native.Mathlib.Decide.{dec_lt}
use go_bitcoin.Eccmath.FieldElement.{FieldElement, mod_inverse}
use go_bitcoin.Eccmath.Point.{Curve, Point, infinity, affine, curve_of, add, scalar_mul}
use go_bitcoin.Eccmath.Point.Group.{IsGroup, times, scalar_mul-times}
use go_bitcoin.Eccmath.Secp256k1.{Secp256k1Group, scalar_base_multiply, sign, verify}
use go_bitcoin.Eccmath.Secp256k1.Signatures.{verify-sign}

abbrev element : ℕ → FieldElement
element n = record { num = n; prime = 13 }

abbrev small_curve : Curve
small_curve = record { a = element 0; b = element 7; p = 13 }

abbrev small_point : ℕ → ℕ → Point
small_point x y = affine (element x) (element y) small_curve

-- The multiples of (7, 5)
abbrev nth : ℕ → Point
nth (suc zero) = small_point 7 5
nth (suc (suc zero)) = small_point 8 5
nth (suc (suc (suc zero))) = small_point 11 8
nth (suc (suc (suc (suc zero)))) = small_point 11 5
nth (suc (suc (suc (suc (suc zero))))) = small_point 8 8
nth (suc (suc (suc (suc (suc (suc zero)))))) = small_point 7 8
nth n = infinity small_curve

-- A property of the numbers below a bound, one after the other
abbrev Below : ℕ → (ℕ → Type 0) → Type 0
Below zero P = Unit
Below (suc n) P = P n × Below n P

below : (P : ℕ → Type 0) (n i : ℕ) → Below n P → i < n → P i
below P zero i h b = absurd (omega arith)
below P (suc n) i (h, hs) b = elim (dec_lt i n) [
  | yes lt ↦ below P n i hs lt
  | no ge ↦ let same : n ≡ i = omega (arith, ge) in subst P same h
]

abbrev Adds : ℕ → ℕ → Type 0
Adds i j = add (nth i) (nth j) ≡ ok (nth ((i + j) % 7))

table_row_6 : Below 7 (Adds 6)
unfolding add
table_row_6 = (refl, (refl, (refl, (refl, (refl, (refl, (refl, (tt))))))))

table_row_5 : Below 7 (Adds 5)
unfolding add
table_row_5 = (refl, (refl, (refl, (refl, (refl, (refl, (refl, (tt))))))))

table_row_4 : Below 7 (Adds 4)
unfolding add
table_row_4 = (refl, (refl, (refl, (refl, (refl, (refl, (refl, (tt))))))))

table_row_3 : Below 7 (Adds 3)
unfolding add
table_row_3 = (refl, (refl, (refl, (refl, (refl, (refl, (refl, (tt))))))))

table_row_2 : Below 7 (Adds 2)
unfolding add
table_row_2 = (refl, (refl, (refl, (refl, (refl, (refl, (refl, (tt))))))))

table_row_1 : Below 7 (Adds 1)
unfolding add
table_row_1 = (refl, (refl, (refl, (refl, (refl, (refl, (refl, (tt))))))))

table_row_0 : Below 7 (Adds 0)
unfolding add
table_row_0 = (refl, (refl, (refl, (refl, (refl, (refl, (refl, (tt))))))))

adds : (i j : ℕ) → i < 7 → j < 7 → Adds i j
adds i j b = below (Adds i) 7 j (
    below (λ n. Below 7 (Adds n)) 7 i
      (
        table_row_6,
        (
          table_row_5,
          (table_row_4, (table_row_3, (table_row_2, (table_row_1, (table_row_0, tt))))),
        ),
      )
      b)

abbrev OnSmall : Point → Type 0
OnSmall p = (i : ℕ) × (i < 7) × (p ≡ nth i)

abbrev or_infinity : Result Point → Point
or_infinity (ok p) = p
or_infinity (err e) = infinity small_curve
or_infinity panic = infinity small_curve
or_infinity out_of_fuel = infinity small_curve

small_sum : Point → Point → Point
small_sum p q = or_infinity (add p q)

small_sum-nth :
    (p q : Point) (i j : ℕ)
    → i < 7
    → j < 7
    → p ≡ nth i
    → q ≡ nth j
    → small_sum p q ≡ nth ((i + j) % 7)
unfolding small_sum
small_sum-nth p q i j b b' e e' = rw (e, e', adds i j b b') refl

small_add : (p q : Point) → OnSmall p → OnSmall q → add p q ≡ ok (small_sum p q)
small_add p q (i, b, e) (j, b', e') =
    ap₂ add e e' ∙ adds i j b b' ∙ ap ok (sym (small_sum-nth p q i j b b' e e'))

small_sum-On : (p q : Point) → OnSmall p → OnSmall q → OnSmall (small_sum p q)
small_sum-On p q (i, b, e) (j, b', e') = ((i + j) % 7, omega arith, small_sum-nth p q i j b b' e e')

small_sum_assoc :
    (p q r : Point)
    → OnSmall p
    → OnSmall q
    → OnSmall r
    → small_sum (small_sum p q) r ≡ small_sum p (small_sum q r)
small_sum_assoc p q r (i, b, e) (j, b', e') (k, b'', e'') =
    small_sum-nth (small_sum p q) r ((i + j) % 7) k (omega arith) b''
      (small_sum-nth p q i j b b' e e') e''
    ∙ ap nth (omega arith)
    ∙ sym (
        small_sum-nth p (small_sum q r) i ((j + k) % 7) b (omega arith) e
          (small_sum-nth q r j k b' b'' e' e''))

nth-curve : (i : ℕ) → curve_of (nth i) ≡ small_curve
nth-curve zero = refl
nth-curve (suc zero) = refl
nth-curve (suc (suc zero)) = refl
nth-curve (suc (suc (suc zero))) = refl
nth-curve (suc (suc (suc (suc zero)))) = refl
nth-curve (suc (suc (suc (suc (suc zero))))) = refl
nth-curve (suc (suc (suc (suc (suc (suc zero)))))) = refl
nth-curve (suc (suc (suc (suc (suc (suc (suc n))))))) = refl

small_group : IsGroup small_curve OnSmall small_sum
small_group = record {
  add_eq = small_add;
  sum-On = small_sum-On;
  sum_assoc = small_sum_assoc;
  infinity-On = (0, omega arith, refl);
  On-curve = λ p h. ap curve_of h.2 ∙ nth-curve h.0;
}

abbrev small_secp : Secp256k1Group
small_secp = record { curve = small_curve; generator = small_point 7 5; order = 7 }

generator-On : OnSmall (small_point 7 5)
generator-On = (1, omega arith, refl)

small_back : times small_group 7 (small_point 7 5) ≡ infinity small_curve
unfolding times small_sum add
small_back = refl

-- The signature of 6 with the key 3 and the nonce 5 has the lower one of s = 6 and 1.
small_signed : sign small_secp (ok 5) 3 6 ≡ ok (record { r = 1; s = 1 })
unfolding sign scalar_mul
small_signed = refl

small_public : scalar_base_multiply small_secp 3 ≡ ok (small_point 11 8)
unfolding scalar_base_multiply scalar_mul
small_public = refl

small_inverse : mod_inverse 1 7 ≡ some 1
unfolding mod_inverse
small_inverse = refl

verify-sign_example : verify small_secp (small_point 11 8) 6 (record { r = 1; s = 1 }) ≡ ok true
verify-sign_example =
    verify-sign small_secp small_group generator-On small_back 3 6 1 (ok 5)
      (record { r = 1; s = 1 }) (small_point 11 8) (omega arith) small_public small_signed
      small_inverse

scalar_mul-times_example :
    scalar_mul 6 (small_point 7 5) ≡ ok (times small_group 6 (small_point 7 5))
scalar_mul-times_example = scalar_mul-times small_group 6 (small_point 7 5) generator-On
