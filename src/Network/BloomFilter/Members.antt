-- ===== src/Network/BloomFilter/Members.antt =====
-- What Add does to the bits of the filter.
use go_bitcoin.Base.{ℕ, zero, suc, ◌+◌, ◌*◌, ◌%◌, ◌^◌, ◌≤◌, ◌<◌, List, get_elem?, length}
use go_bitcoin.Base.{some, ok, ◌≡◌, refl, sym, arith, ◌==◌, false, Bool-cases, inl, inr, subst, ◌∙◌}
use go_bitcoin.Base.Slices.{
  set, write_index-ok, length-set, get_elem?-set_self, get_elem?-set_other,
}
use go_bitcoin.Encoding.Hash.Murmur.{murmur_hash3}
use go_bitcoin.Network.BloomFilter.{BloomFilter, seed, bit_index, set_one, add_from, add}

-- The bit of an item under the i-th hash function
abbrev pub bit_of : BloomFilter → List ℕ → ℕ → ℕ
bit_of bf item i = murmur_hash3 item (seed bf i) % (bf.size * 8)

-- What BIP37 tests an item by: all of its bits are set.
abbrev pub MayContain : List ℕ → BloomFilter → Type 0
MayContain item bf =
    (i : ℕ) → i < bf.function_count → get_elem? bf.bit_field (bit_of bf item i) ≡ some 1

-- The bits are as many as the size says, at least eight and fewer than 2^32.
abbrev pub IsSized : BloomFilter → Type 0
IsSized bf = (0 < bf.size) × (bf.size * 8 < 2 ^ 32) × (length bf.bit_field ≡ bf.size * 8)

-- A bit that is set stays set.
set-keeps :
    (xs : List ℕ) (b j : ℕ)
    → b < length xs
    → get_elem? xs j ≡ some 1
    → get_elem? (set xs b 1) j ≡ some 1
set-keeps xs b j h e = elim (Bool-cases (b == j)) [
  | inl same ↦
      let here : b ≡ j = ground arith in
      subst (λ k. get_elem? (set xs b 1) k ≡ some 1) here (get_elem?-set_self xs b 1 h)
  | inr other ↦ let apart : b ≡ j → ⊥ = λ k. ground arith in get_elem?-set_other xs b j 1 apart ∙ e
]

bit_of-lt :
    (bf : BloomFilter) (item : List ℕ) (i : ℕ) → IsSized bf → bit_of bf item i < length bf.bit_field
bit_of-lt bf item i (some_bytes, low, sized) = omega arith

set_one-eq :
    (i : ℕ) (item : List ℕ) (bf : BloomFilter)
    → IsSized bf
    → set_one i item bf ≡ ok (record bf { bit_field = set bf.bit_field (bit_of bf item i) 1 })
unfolding set_one bit_index
set_one-eq i item bf (some_bytes, low, sized) =
    let small : bf.size * 8 % 2 ^ 32 ≡ bf.size * 8 = omega arith in
    let nonzero : (bf.size * 8 == 0) ≡ false = ground arith in
    let inside : bit_of bf item i < length bf.bit_field = omega arith in
    rw (small, nonzero, write_index-ok bf.bit_field (bit_of bf item i) 1 inside) refl

add_from-bits :
    (k i : ℕ) (item : List ℕ) (bf : BloomFilter)
    → IsSized bf
    → (bits : List ℕ) × (add_from k i item bf ≡ ok (record bf { bit_field = bits }))
      × (length bits ≡ length bf.bit_field)
      × ((j : ℕ) → get_elem? bf.bit_field j ≡ some 1 → get_elem? bits j ≡ some 1)
      × ((j : ℕ) → i ≤ j → j < i + k → get_elem? bits (bit_of bf item j) ≡ some 1)
unfolding add_from seed
add_from-bits zero i item bf sized =
    (bf.bit_field, refl, refl, (λ j e. e), λ j l m. absurd (omega arith))
add_from-bits (suc k) i item bf (some_bytes, low, whole) =
    let sized : IsSized bf = (some_bytes, low, whole) in
    let b : ℕ = bit_of bf item i in
    let bf' : BloomFilter = record bf { bit_field = set bf.bit_field b 1 } in
    let inside : b < length bf.bit_field = bit_of-lt bf item i sized in
    let sized' : IsSized bf' = (some_bytes, low, length-set bf.bit_field b 1 ∙ whole) in
    let (bits, added, kept_length, kept, marked) = add_from-bits k (i + 1) item bf' sized' in
    (
      bits,
      rw (set_one-eq i item bf sized) added,
      kept_length ∙ length-set bf.bit_field b 1,
      (λ j e. kept j (set-keeps bf.bit_field b j inside e)),
      λ j l m. elim (Bool-cases (j == i)) [
        | inl same ↦
            let first : j ≡ i = ground arith in
            kept (bit_of bf item j) (
              subst (λ n. get_elem? (set bf.bit_field b 1) (bit_of bf item n) ≡ some 1) (sym first)
                (get_elem?-set_self bf.bit_field b 1 inside))
        | inr other ↦ marked j (ground arith) (omega arith)
      ],
    )

-- Add marks the item, in a filter that may contain it afterwards and all that it might contain before.
pub add-MayContain :
    (item : List ℕ) (bf : BloomFilter)
    → IsSized bf
    → (bf' : BloomFilter) × (add item bf ≡ ok bf')
      × IsSized bf'
      × MayContain item bf'
      × ((other : List ℕ) → MayContain other bf → MayContain other bf')
unfolding add seed
add-MayContain item bf (some_bytes, low, whole) =
    let (bits, added, kept_length, kept, marked) =
      add_from-bits bf.function_count 0 item bf (some_bytes, low, whole) in
    (
      record bf { bit_field = bits },
      added,
      (some_bytes, low, kept_length ∙ whole),
      (λ i l. marked i (omega arith) (omega arith)),
      λ other contained i l. kept (bit_of bf other i) (contained i l),
    )
