-- ===== src/Address/Bech32/Checksum.antt =====
-- The checksum that createChecksum makes passes verifyChecksum.
use go_bitcoin.Base.{
  ℕ, ◌+◌, ◌*◌, ◌/◌, ◌%◌, ◌^◌, ◌<◌, bit_and, bit_xor, List, [], ◌∷◌, ◌++◌, append_assoc, All,
}
use go_bitcoin.Base.{true, ◌==◌, ◌≡◌, refl, sym, ap, ◌∙◌, arith, Bool-cases, inl, inr, subst}
use go_bitcoin.Base.Bits.{bit_and_mask}
use go_bitcoin.Base.Xor.{
  bit_xor_zero, bit_xor_assoc, bit_xor_swap, bit_xor_cancel, bit_xor_lt, bit_xor_fields,
  bit_xor_shift, bit_xor_beside,
}
use go_bitcoin.Address.Bech32.{
  generator, reduce, polymod_step, polymod_from, polymod, hrp_expand, verify_checksum,
  checksum_groups, create_checksum,
}

-- What is added in front of the generators can be added behind them.
reduce-xor :
    (top : ℕ) (gs : List ℕ) (x y : ℕ) → reduce top gs (bit_xor x y) ≡ bit_xor (reduce top gs x) y
unfolding reduce
reduce-xor top [] x y = refl
reduce-xor top (g ∷ gs) x y = elim (Bool-cases (bit_and top 1 == 1)) [
  | inl odd ↦ rw odd (
      ap (λ t. reduce (top / 2) gs t) (bit_xor_swap x y g)
      ∙ reduce-xor (top / 2) gs (bit_xor x g) y)
  | inr even ↦ rw even (reduce-xor (top / 2) gs x y)
]

reduce_lt :
    (k top : ℕ) (gs : List ℕ) (x : ℕ)
    → All (λ g. g < 2 ^ k) gs
    → x < 2 ^ k
    → reduce top gs x < 2 ^ k
unfolding reduce
reduce_lt k top [] x hs h = h
reduce_lt k top (g ∷ gs) x (hg, hs) h = elim (Bool-cases (bit_and top 1 == 1)) [
  | inl odd ↦ rw odd (reduce_lt k (top / 2) gs (bit_xor x g) hs (bit_xor_lt k x g h hg))
  | inr even ↦ rw even (reduce_lt k (top / 2) gs x hs h)
]

-- A step without a value
abbrev shifted : ℕ → ℕ
shifted chk = reduce (chk / 2 ^ 25) generator (chk % 2 ^ 25 * 2 ^ 5)

polymod_step-shifted : (chk v : ℕ) → polymod_step chk v ≡ bit_xor (shifted chk) v
unfolding polymod_step
polymod_step-shifted chk v =
    reduce-xor (chk / 2 ^ 25) generator (bit_and chk 0x1ffffff * 2 ^ 5) v
    ∙ ap (λ m. bit_xor (reduce (chk / 2 ^ 25) generator (m * 2 ^ 5)) v) (bit_and_mask 25 chk)

shifted_lt : (chk : ℕ) → shifted chk < 2 ^ 30
shifted_lt chk =
    reduce_lt 30 (chk / 2 ^ 25) generator (chk % 2 ^ 25 * 2 ^ 5)
      (omega arith, (omega arith, (omega arith, (omega arith, (omega arith, tt))))) (omega arith)

-- A difference in the low 25 bits moves up by five bits.
shifted-xor : (a b : ℕ) → b < 2 ^ 25 → shifted (bit_xor a b) ≡ bit_xor (shifted a) (b * 2 ^ 5)
shifted-xor a b h =
    let q = a / 2 ^ 25 in
    let r = a % 2 ^ 25 in
    let low : r < 2 ^ 25 = omega arith in
    let low' : bit_xor r b < 2 ^ 25 = bit_xor_lt 25 r b low h in
    let whole : a ≡ q * 2 ^ 25 + r = omega arith in
    let split : bit_xor a b ≡ q * 2 ^ 25 + bit_xor r b =
      ap (λ x. bit_xor x b) whole ∙ bit_xor_fields 25 q r b low h in
    let top : bit_xor a b / 2 ^ 25 ≡ q = omega arith in
    let rest : bit_xor a b % 2 ^ 25 ≡ bit_xor r b = omega arith in
    rw (top, rest)
      (ap (λ x. reduce q generator x) (sym (bit_xor_shift 5 r b))
        ∙ reduce-xor q generator (r * 2 ^ 5) (b * 2 ^ 5))

-- One more group behind a difference of `d`
step_difference :
    (a d c : ℕ)
    → d < 2 ^ 25
    → c < 2 ^ 5
    → polymod_step (bit_xor a d) c ≡ bit_xor (polymod_step a 0) (d * 2 ^ 5 + c)
step_difference a d c h l =
    polymod_step-shifted (bit_xor a d) c
    ∙ ap (λ x. bit_xor x c) (shifted-xor a d h)
    ∙ bit_xor_assoc (shifted a) (d * 2 ^ 5) c
    ∙ ap (λ x. bit_xor (shifted a) x) (bit_xor_beside 5 d c l)
    ∙ ap (λ x. bit_xor x (d * 2 ^ 5 + c))
        (sym (polymod_step-shifted a 0 ∙ bit_xor_zero (shifted a)))

polymod_from-cons :
    (a v : ℕ) (vs : List ℕ) → polymod_from a (v ∷ vs) ≡ polymod_from (polymod_step a v) vs
unfolding polymod_from
polymod_from-cons a v vs = refl

polymod_from-nil : (a : ℕ) → polymod_from a [] ≡ a
unfolding polymod_from
polymod_from-nil a = refl

-- The number of groups behind `d`, each of five bits, and no more than 25 bits in front of each
abbrev packed : ℕ → List ℕ → ℕ
packed d [] = d
packed d (c ∷ cs) = packed (d * 2 ^ 5 + c) cs

abbrev Fits : ℕ → List ℕ → Type 0
Fits d [] = Unit
Fits d (c ∷ cs) = (d < 2 ^ 25) × (c < 2 ^ 5) × Fits (d * 2 ^ 5 + c) cs

abbrev zeros : List ℕ → List ℕ
zeros [] = []
zeros (c ∷ cs) = 0 ∷ zeros cs

-- Groups in place of zeros add their number.
polymod_from-packed :
    (cs : List ℕ) (a d : ℕ)
    → Fits d cs
    → polymod_from (bit_xor a d) cs ≡ bit_xor (polymod_from a (zeros cs)) (packed d cs)
polymod_from-packed [] a d h =
    polymod_from-nil (bit_xor a d) ∙ ap (λ x. bit_xor x d) (sym (polymod_from-nil a))
polymod_from-packed (c ∷ cs) a d (hd, hc, hs) =
    polymod_from-cons (bit_xor a d) c cs
    ∙ ap (λ x. polymod_from x cs) (step_difference a d c hd hc)
    ∙ polymod_from-packed cs (polymod_step a 0) (d * 2 ^ 5 + c) hs
    ∙ ap (λ x. bit_xor x (packed (d * 2 ^ 5 + c) cs)) (sym (polymod_from-cons a 0 (zeros cs)))

groups : ℕ → List ℕ
groups n =
    (n / 2 ^ 25 % 32)
    ∷ (n / 2 ^ 20 % 32)
    ∷ (n / 2 ^ 15 % 32)
    ∷ (n / 2 ^ 10 % 32)
    ∷ (n / 2 ^ 5 % 32)
    ∷ (n % 32)
    ∷ []

mask : (x : ℕ) → bit_and x 31 ≡ x % 32
mask x = bit_and_mask 5 x

checksum_groups-groups : (n : ℕ) → checksum_groups n ≡ groups n
unfolding checksum_groups groups
checksum_groups-groups n =
    rw
      (
        mask (n / 2 ^ 25),
        mask (n / 2 ^ 20),
        mask (n / 2 ^ 15),
        mask (n / 2 ^ 10),
        mask (n / 2 ^ 5),
        mask n,
      )
      refl

groups-Fits : (n : ℕ) → n < 2 ^ 30 → Fits 0 (groups n)
unfolding groups
groups-Fits n h = (
  omega arith,
  omega arith,
  (
    omega arith,
    omega arith,
    (
      omega arith,
      omega arith,
      (omega arith, omega arith, (omega arith, omega arith, (omega arith, omega arith, tt))),
    ),
  ),
)

packed-groups : (n : ℕ) → n < 2 ^ 30 → packed 0 (groups n) ≡ n
unfolding groups
packed-groups n h = omega arith

polymod_from-groups :
    (a n : ℕ)
    → n < 2 ^ 30
    → polymod_from a (checksum_groups n) ≡ bit_xor (polymod_from a (zeros (groups n))) n
polymod_from-groups a n h =
    ap (λ x. polymod_from a x) (checksum_groups-groups n)
    ∙ ap (λ x. polymod_from x (groups n)) (sym (bit_xor_zero a))
    ∙ polymod_from-packed (groups n) a 0 (groups-Fits n h)
    ∙ ap (λ x. bit_xor (polymod_from a (zeros (groups n))) x) (packed-groups n h)

polymod_from-append :
    (xs ys : List ℕ) (a : ℕ) → polymod_from a (xs ++ ys) ≡ polymod_from (polymod_from a xs) ys
polymod_from-append [] ys a = ap (λ x. polymod_from x ys) (sym (polymod_from-nil a))
polymod_from-append (x ∷ xs) ys a =
    polymod_from-cons a x (xs ++ ys)
    ∙ polymod_from-append xs ys (polymod_step a x)
    ∙ ap (λ t. polymod_from t ys) (sym (polymod_from-cons a x xs))

-- A value without high bits leaves a remainder of thirty bits.
polymod_from_zero_lt : (xs : List ℕ) (a : ℕ) → polymod_from a (xs ++ (0 ∷ [])) < 2 ^ 30
polymod_from_zero_lt xs a =
    let last = polymod_from a xs in
    let e : polymod_from a (xs ++ (0 ∷ [])) ≡ shifted last =
      polymod_from-append xs (0 ∷ []) a
      ∙ polymod_from-cons last 0 []
      ∙ polymod_from-nil (polymod_step last 0)
      ∙ polymod_step-shifted last 0
      ∙ bit_xor_zero (shifted last) in
    subst (λ x. x < 2 ^ 30) (sym e) (shifted_lt last)

-- What createChecksum makes of the remainder under zeros leaves the remainder 1.
checksum_remainder :
    (values : List ℕ)
    → polymod_from 1 (
        values
        ++ checksum_groups (bit_xor (polymod_from 1 (values ++ (0 ∷ 0 ∷ 0 ∷ 0 ∷ 0 ∷ 0 ∷ []))) 1))
      ≡ 1
unfolding groups
checksum_remainder values =
    let six : List ℕ = 0 ∷ 0 ∷ 0 ∷ 0 ∷ 0 ∷ 0 ∷ [] in
    let start = polymod_from 1 values in
    let end = polymod_from 1 (values ++ six) in
    let split : end ≡ polymod_from start six = polymod_from-append values six 1 in
    let low : polymod_from start six < 2 ^ 30 =
      polymod_from_zero_lt (0 ∷ 0 ∷ 0 ∷ 0 ∷ 0 ∷ []) start in
    let n = bit_xor end 1 in
    let small : n < 2 ^ 30 =
      bit_xor_lt 30 end 1 (subst (λ x. x < 2 ^ 30) (sym split) low) (omega arith) in
    polymod_from-append values (checksum_groups n) 1
    ∙ polymod_from-groups start n small
    ∙ ap (λ x. bit_xor x n) (sym split)
    ∙ bit_xor_cancel end 1

-- The groups that createChecksum puts behind any values pass verifyChecksum, under any readable part.
pub verify_checksum-create_checksum :
    (hrp values : List ℕ) → verify_checksum hrp (values ++ create_checksum hrp values) ≡ true
unfolding verify_checksum
verify_checksum-create_checksum hrp values =
    let whole : List ℕ = hrp_expand hrp ++ values in
    let remainder : polymod (whole ++ create_checksum hrp values) ≡ 1 =
      unfold create_checksum polymod in checksum_remainder whole in
    ap (λ x. polymod x == 1)
      (sym (append_assoc (hrp_expand hrp) values (create_checksum hrp values)))
    ∙ ap (λ r. r == 1) remainder
