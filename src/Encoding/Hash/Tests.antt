-- ===== src/Encoding/Hash/Tests.antt =====
-- Known answers of the hash functions.
use go_bitcoin.Base.{[], ◌∷◌, ◌≡◌, refl}
use go_bitcoin.Base.Bytes.{le_decode}
use go_bitcoin.Encoding.Hash.Murmur.{
  murmur_hash3, mix_all, mix_block, mix_tail, mix_word, rotl32, fmix,
}
use go_bitcoin.Encoding.Hash.Sip.{
  sip_hash24, compress_all, compress, last_word, sip_round, rotl64, finalize,
}

-- MurmurHash3 of "hello" and of "hello, world" with the seeds 0 and 1
murmur_hello : murmur_hash3 (104 ∷ 101 ∷ 108 ∷ 108 ∷ 111 ∷ []) 0 ≡ 0x248bfa47
unfolding murmur_hash3 mix_all mix_block mix_tail mix_word rotl32 fmix
murmur_hello = refl

murmur_seeded : murmur_hash3 [] 1 ≡ 0x514e28b7
unfolding murmur_hash3 mix_all mix_block mix_tail mix_word rotl32 fmix
murmur_seeded = refl

-- The vector of the SipHash paper: the key 00 01 .. 0f and the data 00 01 .. 0e
sip_paper :
    sip_hash24 0x0706050403020100 0x0f0e0d0c0b0a0908
      (0 ∷ 1 ∷ 2 ∷ 3 ∷ 4 ∷ 5 ∷ 6 ∷ 7 ∷ 8 ∷ 9 ∷ 10 ∷ 11 ∷ 12 ∷ 13 ∷ 14 ∷ [])
    ≡ 0xa129ca6149be45e5
unfolding sip_hash24 compress_all compress last_word sip_round rotl64 finalize le_decode
sip_paper = refl
