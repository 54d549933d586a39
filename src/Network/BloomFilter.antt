-- ===== src/Network/BloomFilter.antt =====
-- internal/network/bloomfilter.go: the filter of BIP37 and the message that loads it.
pub mod Members
mod Tests
use go_bitcoin.Base.{ℕ, zero, suc, ◌+◌, ◌*◌, ◌%◌, ◌^◌, List, [], ◌∷◌, ◌++◌, ◌==◌, if◌then◌else◌}
use go_bitcoin.Base.{Result, ok, panic, ◌>>=◌}
use go_bitcoin.Base.Slices.{write_index}
use go_bitcoin.Base.Bytes.{le_encode}
use go_bitcoin.Encoding.Hash.Murmur.{murmur_hash3}
use go_bitcoin.Encoding.BitField.{bit_field_to_bytes}
use go_bitcoin.Encoding.VarInt.{encode_var_int}

-- BIP37_CONSTANT of internal/encoding/hash.go
abbrev pub bip37_constant : ℕ
bip37_constant = 0xfba4c795

pub record BloomFilter : Type 0 where
  pub size : ℕ
  pub bit_field : List ℕ
  pub function_count : ℕ
  pub tweak : ℕ

abbrev pub cleared : ℕ → List ℕ
cleared zero = []
cleared (suc k) = 0 ∷ cleared k

unfoldable pub new_bloom_filter : ℕ → ℕ → ℕ → BloomFilter
new_bloom_filter size func_count tweak = record {
  size = size % 2 ^ 32;
  bit_field = cleared (size * 8);
  function_count = func_count;
  tweak = tweak % 2 ^ 32;
}

-- The seed of the i-th hash function
unfoldable pub seed : BloomFilter → ℕ → ℕ
seed bf i = (i % 2 ^ 32 * bip37_constant + bf.tweak) % 2 ^ 32

-- `h % (bf.Size * 8)`: a product of 0, to which it may wrap, panics.
unfoldable pub bit_index : BloomFilter → ℕ → Result ℕ
bit_index bf h = let bits = bf.size * 8 % 2 ^ 32 in if bits == 0 then panic else ok (h % bits)

-- The round of the i-th hash function
unfoldable pub set_one : ℕ → List ℕ → BloomFilter → Result BloomFilter
unfolding seed bit_index
set_one i item bf = do
  bit ← bit_index bf (murmur_hash3 item (seed bf i))
  bit_field ← write_index bf.bit_field bit 1
  ok (record bf { bit_field = bit_field })

-- The rounds from the i-th one on
unfoldable pub add_from : ℕ → ℕ → List ℕ → BloomFilter → Result BloomFilter
unfolding set_one
add_from zero i item bf = ok bf
add_from (suc k) i item bf = do bf' ← set_one i item bf; add_from k (i + 1) item bf'

unfoldable pub add : List ℕ → BloomFilter → Result BloomFilter
unfolding add_from
add item bf = add_from bf.function_count 0 item bf

unfoldable pub filter_bytes : BloomFilter → Result (List ℕ)
filter_bytes bf = bit_field_to_bytes bf.bit_field

pub record FilterLoadMessage : Type 0 where
  pub filter : BloomFilter
  pub flag : ℕ

unfoldable pub serialize : FilterLoadMessage → Result (List ℕ)
unfolding filter_bytes
serialize f = do
  size_bytes ← encode_var_int f.filter.size
  bits ← filter_bytes f.filter
  ok (
      size_bytes
      ++ (bits
          ++ (le_encode 4 (f.filter.function_count % 2 ^ 32)
              ++ (le_encode 4 f.filter.tweak ++ (f.flag ∷ [])))))
