-- ===== src/Network/Reduction.antt =====
-- hashToRange and fastReduction of internal/network/gcs.go: hashes mapped to a range by a product of
-- 128 bits that is built from 32-bit halves.
use go_bitcoin.Base.{ℕ, ◌+◌, ◌-◌, ◌*◌, ◌/◌, ◌%◌, ◌^◌, ◌≤◌, ◌<◌, arith, ◌≡◌, ◌∙◌, ap₂, List}
use go_bitcoin.Base.{
  false, Bool-cases, inl, inr, leb, ◌==◌, if◌then◌else◌, Result, ok, err, invalid_input,
}
use native.Mathlib.Nat.{mul-le-mul_right, mul-pos}

abbrev hi : ℕ → ℕ
hi v = v / 2 ^ 32

abbrev lo : ℕ → ℕ
lo v = v % 2 ^ 32

abbrev wrap : ℕ → ℕ
wrap v = v % 2 ^ 64

unfoldable pub fast_reduction : ℕ → ℕ → ℕ
fast_reduction v n =
    let vnp_hi = wrap (hi v * hi n) in
    let vnp_mid = wrap (hi v * lo n) in
    let npv_mid = wrap (hi n * lo v) in
    let vnp_lo = wrap (lo v * lo n) in
    let carry = wrap (lo vnp_mid + lo npv_mid + vnp_lo / 2 ^ 32) / 2 ^ 32 in
    wrap (vnp_hi + vnp_mid / 2 ^ 32 + npv_mid / 2 ^ 32 + carry)

-- SipHash-2-4 of the item, under the filter's keys, is an argument.
unfoldable pub hash_to_range : (List ℕ → ℕ) → List ℕ → ℕ → ℕ → Result ℕ
unfolding fast_reduction
hash_to_range sip_hash item n m =
    if leb (2 ^ 32) n
    then err invalid_input
    else if leb (2 ^ 32) m
    then err invalid_input
    else if n == 0
    then ok 0
    else ok (fast_reduction (sip_hash item) (n * m % 2 ^ 64))

half_product : (a b : ℕ) → a < 2 ^ 32 → b < 2 ^ 32 → a * b ≤ (2 ^ 32 - 1) * (2 ^ 32 - 1)
half_product a b h k = grind arith

expand :
    (a b c d : ℕ)
    → (a * 2 ^ 32 + b) * (c * 2 ^ 32 + d) ≡ a * c * 2 ^ 64 + (a * d + c * b) * 2 ^ 32 + b * d
expand a b c d = grind arith

product_split :
    (v n : ℕ) → v * n ≡ hi v * hi n * 2 ^ 64 + (hi v * lo n + hi n * lo v) * 2 ^ 32 + lo v * lo n
product_split v n =
    let halves : (x : ℕ) → x ≡ hi x * 2 ^ 32 + lo x = λ x. omega arith in
    ap₂ (λ (x y : ℕ). x * y) (halves v) (halves n) ∙ expand (hi v) (lo v) (hi n) (lo n)

-- On two 64-bit numbers fastReduction gives the upper 64 bits of their product, and loses no carry.
pub fast_reduction-eq : (v n : ℕ) → v < 2 ^ 64 → n < 2 ^ 64 → fast_reduction v n ≡ v * n / 2 ^ 64
unfolding fast_reduction
fast_reduction-eq v n h k = omega (
  arith,
  product_split v n,
  half_product (hi v) (hi n) (omega arith) (omega arith),
  half_product (hi v) (lo n) (omega arith) (omega arith),
  half_product (hi n) (lo v) (omega arith) (omega arith),
  half_product (lo v) (lo n) (omega arith) (omega arith),
)

scaled_lt : (s f : ℕ) → s < 2 ^ 64 → 0 < f → s * f / 2 ^ 64 < f
scaled_lt s f h p =
    let below : s * f ≤ (2 ^ 64 - 1) * f = mul-le-mul_right f (omega arith) in omega arith

-- Every hash that hashToRange gives for a filter with items is below the number of the items times
-- the modulus.
pub hash_to_range_lt :
    (sip_hash : List ℕ → ℕ) (item : List ℕ) (n m r : ℕ)
    → sip_hash item < 2 ^ 64
    → 0 < n
    → 0 < m
    → hash_to_range sip_hash item n m ≡ ok r
    → r < n * m
unfolding hash_to_range
hash_to_range_lt sip_hash item n m r h n_pos m_pos e = elim (Bool-cases (leb (2 ^ 32) n)) [
  | inl big ↦ let no = rw (big) at e in cc
  | inr n_fits ↦ elim (Bool-cases (leb (2 ^ 32) m)) [
    | inl big ↦ let no = rw (n_fits, big) at e in cc
    | inr m_fits ↦
        let product : n * m ≤ (2 ^ 32 - 1) * (2 ^ 32 - 1) =
          half_product n m (ground arith) (ground arith) in
        let positive : 0 < n * m = mul-pos n_pos m_pos in
        let small : n * m % 2 ^ 64 ≡ n * m = omega arith in
        let nonzero : (n == 0) ≡ false = ground arith in
        let value =
          rw
            (
              n_fits,
              m_fits,
              nonzero,
              small,
              fast_reduction-eq (sip_hash item) (n * m) h (omega arith),
            )
            at e in
        let bound = scaled_lt (sip_hash item) (n * m) h positive in ground (arith, value)
  ]
]
