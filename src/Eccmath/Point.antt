-- ===== src/Eccmath/Point.antt =====
-- internal/eccmath/elliptic_curve.go: the points of a curve, their addition and the double-and-add loop.
pub mod Group
use go_bitcoin.Base.{ℕ, zero, suc, ◌+◌, ◌/◌, ◌%◌, Bool, true, false, not, ◌&&◌, ◌==◌, if◌then◌else◌}
use go_bitcoin.Base.{Result, ok, err, panic, out_of_fuel, ◌>>=◌, invalid_input}
use go_bitcoin.Eccmath.FieldElement
use go_bitcoin.Eccmath.FieldElement.{FieldElement, new_field_element, is_zero, inv}

pub record Curve : Type 0 where
  pub a : FieldElement
  pub b : FieldElement
  pub p : ℕ

unfoldable pub new_curve : ℕ → ℕ → ℕ → Curve
unfolding new_field_element
new_curve a b p = record { a = new_field_element a p; b = new_field_element b p; p = p }

-- The coordinates of the point at infinity are nil.
pub data Point : Type 0 where
  infinity : Curve → Point
  affine : FieldElement → FieldElement → Curve → Point

abbrev pub curve_of : Point → Curve
curve_of (infinity c) = c
curve_of (affine x y c) = c

unfoldable pub is_inf : Point → Bool
is_inf (infinity c) = true
is_inf (affine x y c) = false

unfoldable pub curve_equals : Curve → Curve → Bool
unfolding FieldElement.equals
curve_equals c d = FieldElement.equals c.a d.a && FieldElement.equals c.b d.b

unfoldable pub equals : Point → Point → Bool
unfolding curve_equals
equals (infinity c) (infinity d) = curve_equals c d
equals (infinity c) (affine x y d) = false
equals (affine x y c) (infinity d) = false
equals (affine x1 y1 c) (affine x2 y2 d) =
    FieldElement.equals x1 x2 && FieldElement.equals y1 y2 && curve_equals c d

unfoldable pub new_point : Curve → ℕ → ℕ → Result Point
unfolding new_field_element FieldElement.pow FieldElement.mul FieldElement.add FieldElement.equals
new_point c x y = do
  let y_fe = new_field_element y c.p
  let x_fe = new_field_element x c.p
  ax ← FieldElement.mul c.a x_fe
  sum ← FieldElement.add (FieldElement.pow x_fe 3) ax
  rhs ← FieldElement.add sum c.b
  (if FieldElement.equals (FieldElement.pow y_fe 2) rhs
      then ok (affine x_fe y_fe c)
      else err invalid_input)

unfoldable pub get_slope :
    FieldElement → FieldElement → FieldElement → FieldElement → Result FieldElement
unfolding FieldElement.sub is_zero FieldElement.div
get_slope x1 y1 x2 y2 = do
  numerator ← FieldElement.sub y2 y1
  denom ← FieldElement.sub x2 x1
  (if is_zero denom then err invalid_input else FieldElement.div numerator denom)

-- The first error is returned as nil with an empty element, on which the next call panics.
abbrev pub or_panic : Result FieldElement → Result FieldElement
or_panic (ok x) = ok x
or_panic (err e) = panic
or_panic panic = panic
or_panic out_of_fuel = out_of_fuel

unfoldable pub double_slope : FieldElement → FieldElement → Curve → Result FieldElement
unfolding FieldElement.pow FieldElement.mul FieldElement.add is_zero FieldElement.div
    new_field_element
double_slope x y c = do
  three_x_sqr ← or_panic (FieldElement.mul (FieldElement.pow x 2) (new_field_element 3 c.p))
  numerator ← FieldElement.add three_x_sqr c.a
  denom ← FieldElement.mul y (new_field_element 2 c.p)
  (if is_zero denom then err invalid_input else FieldElement.div numerator denom)

unfoldable pub double_point : FieldElement → FieldElement → Curve → Result Point
unfolding double_slope FieldElement.pow FieldElement.mul FieldElement.sub new_field_element
double_point x y c = do
  slope ← double_slope x y c
  two_x ← FieldElement.mul x (new_field_element 2 c.p)
  x3 ← FieldElement.sub (FieldElement.pow slope 2) two_x
  x1_less_x3 ← FieldElement.sub x x3
  s2 ← FieldElement.mul x1_less_x3 slope
  y3 ← FieldElement.sub s2 y
  ok (affine x3 y3 c)

-- The sum of points with different x
unfoldable pub add_slope :
    FieldElement → FieldElement → FieldElement → FieldElement → Curve → Result Point
unfolding get_slope FieldElement.pow FieldElement.mul FieldElement.sub
add_slope x1 y1 x2 y2 c = do
  slope ← get_slope x1 y1 x2 y2
  difference ← FieldElement.sub (FieldElement.pow slope 2) x1
  x3 ← FieldElement.sub difference x2
  drop_x ← FieldElement.sub x1 x3
  rise ← FieldElement.mul drop_x slope
  y3 ← FieldElement.sub rise y1
  ok (affine x3 y3 c)

unfoldable pub add_points : Point → Point → Result Point
unfolding FieldElement.equals is_zero double_point add_slope
add_points (infinity c) q = ok q
add_points (affine x y c) (infinity d) = ok (affine x y c)
add_points (affine x1 y1 c) (affine x2 y2 d) =
    if FieldElement.equals x1 x2 && not (FieldElement.equals y1 y2)
    then ok (infinity c)
    else if FieldElement.equals x1 x2 && FieldElement.equals y1 y2 && is_zero y1
    then ok (infinity c)
    else if FieldElement.equals x1 x2 && FieldElement.equals y1 y2
    then double_point x1 y1 c
    else add_slope x1 y1 x2 y2 c

unfoldable pub add : Point → Point → Result Point
unfolding curve_equals add_points
add p q = if curve_equals (curve_of p) (curve_of q) then add_points p q else err invalid_input

-- `if n&1 == 1 { result, err = result.Add(addend) }`
unfoldable pub add_bit : ℕ → Point → Point → Result Point
unfolding add
add_bit n result addend = if n % 2 == 1 then add result addend else ok result

unfoldable pub scalar_loop : ℕ → ℕ → Point → Point → Result Point
unfolding add_bit add
scalar_loop fuel zero result addend = ok result
scalar_loop zero (suc n) result addend = out_of_fuel
scalar_loop (suc fuel) (suc n) result addend = do
  result' ← add_bit (suc n) result addend
  addend' ← add addend addend
  scalar_loop fuel (suc n / 2) result' addend'

-- ScalarMul and ScalarMulBig; a negative factor ends the loop at once, as zero does.
unfoldable pub scalar_mul : ℕ → Point → Result Point
unfolding scalar_loop
scalar_mul n p = scalar_loop n n (infinity (curve_of p)) p

unfoldable pub must_point : Result Point → Result Point
must_point (ok p) = ok p
must_point (err e) = panic
must_point panic = panic
must_point out_of_fuel = out_of_fuel
