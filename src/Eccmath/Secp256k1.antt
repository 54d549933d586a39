-- ===== src/Eccmath/Secp256k1.antt =====
-- internal/eccmath/secp256k1.go: the group of a generator, signatures, and the SEC form of public keys.
pub mod Signatures
mod Tests
use go_bitcoin.Base.{
  ℕ, zero, suc, ◌+◌, ◌-◌, ◌*◌, ◌/◌, ◌%◌, ◌^◌, Bool, true, false, ◌&&◌, ltb, leb, ◌==◌,
}
use go_bitcoin.Base.{if◌then◌else◌, List, [], ◌∷◌, ◌++◌, length, take, drop, Option, none, some}
use go_bitcoin.Base.{Result, ok, err, panic, out_of_fuel, ◌>>=◌, invalid_input}
use go_bitcoin.Base.BigInt.{to_bytes, set_bytes}
use go_bitcoin.Eccmath.FieldElement
use go_bitcoin.Eccmath.FieldElement.{FieldElement, new_field_element, mod_inverse}
use go_bitcoin.Eccmath.Point.{
  Curve, Point, infinity, affine, add, scalar_mul, new_point, must_point, is_inf,
}
use go_bitcoin.Eccmath.Signature.{Signature}

pub record Secp256k1Group : Type 0 where
  pub curve : Curve
  pub generator : Point
  pub order : ℕ

unfoldable pub make_secp256k1 : Curve
unfolding new_field_element
make_secp256k1 =
    let p = 2 ^ 256 - 2 ^ 32 - 977 in
    record { a = new_field_element 0 p; b = new_field_element 7 p; p = p }

unfoldable pub new_bitcoin : Result Secp256k1Group
unfolding make_secp256k1 must_point new_point
new_bitcoin = do
  g ← must_point (
      new_point make_secp256k1 0x79BE667EF9DCBBAC55A06295CE870B07029BFCDB2DCE28D959F2815B16F81798
        0x483ADA7726A3C4655DA4FBFC0E1108A8FD17B448A68554199C47D08FFB10D4B8)
  ok (record {
    curve = make_secp256k1;
    generator = g;
    order = 0xFFFFFFFFFFFFFFFFFFFFFFFFFFFFFFFEBAAEDCE6AF48A03BBFD25E8CD0364141;
  })

unfoldable pub scalar_base_multiply : Secp256k1Group → ℕ → Result Point
unfolding must_point
scalar_base_multiply s k = must_point (scalar_mul k s.generator)

-- The error is dropped, with a point that is not at infinity.
abbrev pub or_not_infinite : Result Point → Result Bool
or_not_infinite (ok p) = ok (is_inf p)
or_not_infinite (err e) = ok false
or_not_infinite panic = panic
or_not_infinite out_of_fuel = out_of_fuel

unfoldable pub contains : Secp256k1Group → Point → Result Bool
contains s p = or_not_infinite (scalar_mul s.order p)

-- `p.x.num` of a point at infinity is a nil pointer.
unfoldable pub x_num : Point → Result ℕ
x_num (infinity c) = panic
x_num (affine x y c) = ok x.num

unfoldable pub y_num : Point → Result ℕ
y_num (infinity c) = panic
y_num (affine x y c) = ok y.num

-- A product with the inverse, or with the nil that stands for none
abbrev pub or_nil : Option ℕ → Result ℕ
or_nil none = panic
or_nil (some b) = ok b

-- crypto/rand's Int gives a number below the order or an error; a zero is made one.
unfoldable pub rand_field_element : Result ℕ → Result ℕ
rand_field_element n = do k ← n; ok (if k == 0 then 1 else k)

-- The lower one of s and N - s
unfoldable pub low_s : ℕ → ℕ → ℕ
low_s order s = if ltb (order / 2) s then order - s else s

unfoldable pub sign_with : Secp256k1Group → ℕ → ℕ → ℕ → Result Signature
unfolding scalar_base_multiply x_num low_s
sign_with g key z k = do
  point ← scalar_base_multiply g k
  x ← x_num point
  let r = x % g.order
  k_inv ← or_nil (mod_inverse k g.order)
  ok (record { r = r; s = low_s g.order ((z + r * key) * k_inv % g.order) })

-- The random number is an argument.
unfoldable pub sign : Secp256k1Group → Result ℕ → ℕ → ℕ → Result Signature
unfolding rand_field_element sign_with
sign g random key z = do k ← rand_field_element random; sign_with g key z k

-- `if err != nil { return false }`
abbrev pub or_refused : Result Point → (Point → Result Bool) → Result Bool
or_refused (ok p) next = next p
or_refused (err e) next = ok false
or_refused panic next = panic
or_refused out_of_fuel next = out_of_fuel

unfoldable pub verify : Secp256k1Group → Point → ℕ → Signature → Result Bool
unfolding scalar_base_multiply x_num
verify g point z sig = do
  s_inv ← or_nil (mod_inverse sig.s g.order)
  let u = z * s_inv % g.order
  let v = sig.r * s_inv % g.order
  u_g ← scalar_base_multiply g u
  or_refused (scalar_mul v point)
      λ v_p. or_refused (add u_g v_p) λ total. do x ← x_num total; ok (x % g.order == sig.r)

unfoldable pub sqrt : FieldElement → FieldElement
unfolding new_field_element
sqrt a = new_field_element (a.num ^ ((a.prime + 1) / 4) % a.prime) a.prime

abbrev pub zeros : ℕ → List ℕ
zeros zero = []
zeros (suc k) = 0 ∷ zeros k

-- The bytes of a coordinate on the right of 32; more of them panic.
unfoldable pub padded : ℕ → Result (List ℕ)
padded n =
    let bs = to_bytes n in if leb (length bs) 32 then ok (zeros (32 - length bs) ++ bs) else panic

unfoldable pub serialize : Point → Bool → Result (List ℕ)
unfolding x_num y_num padded
serialize point false = do
  x ← x_num point
  y ← y_num point
  xs ← padded x
  ys ← padded y
  ok (0x04 ∷ (xs ++ ys))
serialize point true = do
  x ← x_num point
  y ← y_num point
  xs ← padded x
  ok ((if y % 2 == 0 then 0x02 else 0x03) ∷ xs)

-- data[1:33]: a slice may reach into what its array holds behind it.
unfoldable pub x_bytes : List ℕ → List ℕ → Result (List ℕ)
x_bytes bs spare =
    let array = bs ++ spare in if leb 33 (length array) then ok (take 32 (drop 1 array)) else panic

-- The other root has the other parity.
unfoldable pub root_of_parity : FieldElement → ℕ → Bool → ℕ
root_of_parity y p is_even =
    if y.num % 2 == 0
    then (if is_even then y.num else p - y.num)
    else (if is_even then p - y.num else y.num)

unfoldable pub deserialize_compressed : Secp256k1Group → List ℕ → List ℕ → Bool → Result Point
unfolding x_bytes new_field_element sqrt root_of_parity
deserialize_compressed g bs spare is_even = do
  xs ← x_bytes bs spare
  let x = set_bytes xs
  let p = g.curve.p
  y2 ← FieldElement.add (FieldElement.pow (new_field_element x p) 3) (new_field_element 7 p)
  new_point g.curve x (root_of_parity (sqrt y2) p is_even)

-- The bytes behind the slice in its array are an argument.
unfoldable pub deserialize : Secp256k1Group → List ℕ → List ℕ → Result Point
unfolding deserialize_compressed
deserialize g [] spare = panic
deserialize g (marker ∷ bs) spare =
    if leb 65 (length (marker ∷ bs)) && marker == 0x04
    then new_point g.curve (set_bytes (take 32 bs)) (set_bytes (take 32 (drop 32 bs)))
    else if marker == 0x03
    then deserialize_compressed g (marker ∷ bs) spare false
    else if marker == 0x02
    then deserialize_compressed g (marker ∷ bs) spare true
    else err invalid_input
