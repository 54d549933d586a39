-- ===== src/Encoding/Hash/Sip.antt =====
-- SipHash24 of internal/encoding/hash.go, on 64-bit words.
use go_bitcoin.Base.{ℕ, ◌+◌, ◌-◌, ◌*◌, ◌/◌, ◌%◌, ◌^◌, bit_or, bit_xor, List, [], ◌∷◌, length}
use go_bitcoin.Base.Bytes.{le_decode}

abbrev pub siphash_init_v0 : ℕ
siphash_init_v0 = 0x736f6d6570736575

abbrev pub siphash_init_v1 : ℕ
siphash_init_v1 = 0x646f72616e646f6d

abbrev pub siphash_init_v2 : ℕ
siphash_init_v2 = 0x6c7967656e657261

abbrev pub siphash_init_v3 : ℕ
siphash_init_v3 = 0x7465646279746573

abbrev pub siphash_final : ℕ
siphash_final = 0xff

-- The four words that the rounds mix
pub record SipState : Type 0 where
  pub v0 : ℕ
  pub v1 : ℕ
  pub v2 : ℕ
  pub v3 : ℕ

-- `(x << r) | (x >> (64 - r))`
unfoldable pub rotl64 : ℕ → ℕ → ℕ
rotl64 r x = bit_or (x * 2 ^ r % 2 ^ 64) (x / 2 ^ (64 - r))

unfoldable pub sip_round : SipState → SipState
unfolding rotl64
sip_round s =
    let a0 = (s.v0 + s.v1) % 2 ^ 64 in
    let a1 = bit_xor (rotl64 13 s.v1) a0 in
    let b0 = rotl64 32 a0 in
    let a2 = (s.v2 + s.v3) % 2 ^ 64 in
    let a3 = bit_xor (rotl64 16 s.v3) a2 in
    let c0 = (b0 + a3) % 2 ^ 64 in
    let b3 = bit_xor (rotl64 21 a3) c0 in
    let b2 = (a2 + a1) % 2 ^ 64 in
    let b1 = bit_xor (rotl64 17 a1) b2 in record { v0 = c0; v1 = b1; v2 = rotl64 32 b2; v3 = b3 }

-- One word: v3 takes it before two rounds, v0 after them.
unfoldable pub compress : SipState → ℕ → SipState
unfolding sip_round
compress s m =
    let s' = sip_round (sip_round (record s { v3 = bit_xor s.v3 m })) in
    record s' { v0 = bit_xor s'.v0 m }

-- `b |= uint64(data[k]) << (8 * k)` for each byte from the k-th on
abbrev or_bytes : ℕ → ℕ → List ℕ → ℕ
or_bytes k b [] = b
or_bytes k b (x ∷ xs) = bit_or (or_bytes (k + 1) b xs) (x * 2 ^ (8 * k))

-- The length stands in the top byte of the last word, over the zero to seven bytes that are left.
unfoldable pub last_word : ℕ → List ℕ → ℕ
last_word size left = or_bytes 0 (size * 2 ^ 56 % 2 ^ 64) left

unfoldable pub compress_all : ℕ → SipState → List ℕ → SipState
unfolding compress last_word
compress_all size s (b0 ∷ b1 ∷ b2 ∷ b3 ∷ b4 ∷ b5 ∷ b6 ∷ b7 ∷ bs) =
    compress_all size (compress s (le_decode (b0 ∷ b1 ∷ b2 ∷ b3 ∷ b4 ∷ b5 ∷ b6 ∷ b7 ∷ []))) bs
compress_all size s left = compress s (last_word size left)

unfoldable pub finalize : SipState → ℕ
unfolding sip_round
finalize s =
    let r =
      sip_round
        (sip_round (sip_round (sip_round (record s { v2 = bit_xor s.v2 siphash_final })))) in
    bit_xor (bit_xor (bit_xor r.v0 r.v1) r.v2) r.v3

unfoldable pub sip_hash24 : ℕ → ℕ → List ℕ → ℕ
unfolding compress_all finalize
sip_hash24 key0 key1 bs =
    let start : SipState = record {
      v0 = bit_xor key0 siphash_init_v0;
      v1 = bit_xor key1 siphash_init_v1;
      v2 = bit_xor key0 siphash_init_v2;
      v3 = bit_xor key1 siphash_init_v3;
    } in
    finalize (compress_all (length bs) start bs)
