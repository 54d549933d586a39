-- ===== src/Encoding/Hash/Murmur.antt =====
-- MurmurHash3 of internal/encoding/hash.go, on 32-bit words. The data have fewer than 2^32 bytes.
use go_bitcoin.Base.{ℕ, ◌+◌, ◌-◌, ◌*◌, ◌/◌, ◌%◌, ◌^◌, bit_or, bit_xor, List, [], ◌∷◌, length}

abbrev pub murmur3_c1 : ℕ
murmur3_c1 = 0xcc9e2d51

abbrev pub murmur3_c2 : ℕ
murmur3_c2 = 0x1b873593

abbrev pub murmur3_seed : ℕ
murmur3_seed = 0xe6546b64

abbrev pub murmur3_fmix_c1 : ℕ
murmur3_fmix_c1 = 0x85ebca6b

abbrev pub murmur3_fmix_c2 : ℕ
murmur3_fmix_c2 = 0xc2b2ae35

-- `(x << r) | (x >> (32 - r))`
unfoldable pub rotl32 : ℕ → ℕ → ℕ
rotl32 r x = bit_or (x * 2 ^ r % 2 ^ 32) (x / 2 ^ (32 - r))

unfoldable pub mix_word : ℕ → ℕ
unfolding rotl32
mix_word k1 = rotl32 15 (k1 * murmur3_c1 % 2 ^ 32) * murmur3_c2 % 2 ^ 32

unfoldable pub mix_block : ℕ → ℕ → ℕ
unfolding mix_word
mix_block h1 k1 = (rotl32 13 (bit_xor h1 (mix_word k1)) * 5 + murmur3_seed) % 2 ^ 32

-- The one to three bytes behind the blocks
unfoldable pub mix_tail : ℕ → List ℕ → ℕ
unfolding mix_word
mix_tail h1 [] = h1
mix_tail h1 (b0 ∷ []) = bit_xor h1 (mix_word b0)
mix_tail h1 (b0 ∷ b1 ∷ []) = bit_xor h1 (mix_word (bit_or (b1 * 2 ^ 8) b0))
mix_tail h1 (b0 ∷ b1 ∷ b2 ∷ _) =
    bit_xor h1 (mix_word (bit_or (bit_or (b2 * 2 ^ 16) (b1 * 2 ^ 8)) b0))

unfoldable pub mix_all : ℕ → List ℕ → ℕ
unfolding mix_block mix_tail
mix_all h1 (b0 ∷ b1 ∷ b2 ∷ b3 ∷ bs) =
    mix_all (mix_block h1 (bit_or (bit_or (bit_or b0 (b1 * 2 ^ 8)) (b2 * 2 ^ 16)) (b3 * 2 ^ 24))) bs
mix_all h1 bs = mix_tail h1 bs

unfoldable pub fmix : ℕ → ℕ
fmix h0 =
    let h1 = bit_xor h0 (h0 / 2 ^ 16) * murmur3_fmix_c1 % 2 ^ 32 in
    let h2 = bit_xor h1 (h1 / 2 ^ 13) * murmur3_fmix_c2 % 2 ^ 32 in bit_xor h2 (h2 / 2 ^ 16)

unfoldable pub murmur_hash3 : List ℕ → ℕ → ℕ
unfolding mix_all fmix
murmur_hash3 bs seed = fmix (bit_xor (mix_all seed bs) (length bs % 2 ^ 32))
