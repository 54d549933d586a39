-- ===== src/Network/BloomFilter/Tests.antt =====
-- The filter of sixteen bits and two hash functions of the source's own test.
use go_bitcoin.Base.{ℕ, List, [], ◌∷◌, ok, ◌>>=◌, ◌≡◌, refl, arith}
use go_bitcoin.Base.Slices.{write_index}
use go_bitcoin.Encoding.Hash.Murmur.{
  murmur_hash3, mix_all, mix_block, mix_tail, mix_word, rotl32, fmix,
}
use go_bitcoin.Network.BloomFilter.{
  BloomFilter, new_bloom_filter, add, add_from, set_one, seed, bit_index,
}
use go_bitcoin.Network.BloomFilter.Members.{IsSized, MayContain, add-MayContain}

-- "hello world" and "goodbye"
abbrev hello_world : List ℕ
hello_world = 104 ∷ 101 ∷ 108 ∷ 108 ∷ 111 ∷ 32 ∷ 119 ∷ 111 ∷ 114 ∷ 108 ∷ 100 ∷ []

abbrev goodbye : List ℕ
goodbye = 103 ∷ 111 ∷ 111 ∷ 100 ∷ 98 ∷ 121 ∷ 101 ∷ []

abbrev small_filter : BloomFilter
small_filter = new_bloom_filter 2 2 42

added_bits :
    (do bf ← add hello_world small_filter; bf' ← add goodbye bf; ok bf'.bit_field)
    ≡ ok (0 ∷ 0 ∷ 0 ∷ 0 ∷ 0 ∷ 1 ∷ 1 ∷ 0 ∷ 0 ∷ 1 ∷ 1 ∷ 0 ∷ 0 ∷ 0 ∷ 0 ∷ 0 ∷ [])
unfolding new_bloom_filter add add_from set_one seed bit_index write_index murmur_hash3 mix_all
    mix_block mix_tail mix_word rotl32 fmix
added_bits = refl

small_filter-IsSized : IsSized small_filter
unfolding new_bloom_filter
small_filter-IsSized = (omega arith, omega arith, refl)

add-MayContain_example :
    (bf' : BloomFilter) × (add goodbye small_filter ≡ ok bf')
    × IsSized bf'
    × MayContain goodbye bf'
    × ((other : List ℕ) → MayContain other small_filter → MayContain other bf')
add-MayContain_example = add-MayContain goodbye small_filter small_filter-IsSized
