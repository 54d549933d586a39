-- ===== src/Network/Gcs.antt =====
-- The Golomb-coded sets of internal/network/gcs.go.
pub mod Coding
pub mod Sorting
pub mod Members
use go_bitcoin.Base.{
  ℕ, zero, suc, ◌+◌, ◌-◌, ◌*◌, ◌/◌, ◌%◌, ◌^◌, Bool, true, false, List, [], ◌∷◌, ◌++◌,
}
use go_bitcoin.Base.{◌==◌, ltb, leb, if◌then◌else◌, length, Result, ok, err, out_of_fuel, ◌>>=◌}
use go_bitcoin.Encoding.VarInt.{read_var_int, encode_var_int}
use go_bitcoin.Encoding.BitStream.{
  BitStream, new_bit_stream, new_bit_stream_from_slice, write_bit, read_bit, write_bits,
  read_bits_big_endian, bytes,
}
use go_bitcoin.Network.Reduction.{hash_to_range}

-- `filter` is the field data.
pub record GolombCodedSet : Type 0 where
  pub num_items : ℕ
  pub p : ℕ
  pub m : ℕ
  pub filter : List ℕ

-- The defaults of BIP 158
abbrev pub basic_m : ℕ
basic_m = 784931

abbrev pub basic_p : ℕ
basic_p = 19

unfoldable pub write_ones : ℕ → BitStream → Result BitStream
write_ones zero s = ok s
write_ones (suc q) s = do s' ← write_bit true s; write_ones q s'

-- `x` is the bit pattern of an int64; the shift of a negative one leaves a negative quotient. The error of
-- WriteBitsBigEndian for no bits is dropped, and then nothing is written.
unfoldable pub golomb_encode : BitStream → ℕ → ℕ → Result BitStream
unfolding write_ones
golomb_encode s x p = do
  s1 ← write_ones (if ltb x (2 ^ 63) then x / 2 ^ p else 0) s
  s2 ← write_bit false s1
  write_bits x p s2

-- `for s.ReadBit() == 0x01 { q++ }`: the fuel is more than there are bits.
unfoldable pub read_ones : ℕ → ℕ → BitStream → Result (ℕ × BitStream)
read_ones zero q s = out_of_fuel
read_ones (suc fuel) q s = do
  (bit, s') ← read_bit s
  (let more = read_ones fuel (suc q) s' in if bit == 0x01 then more else ok (q, s'))

unfoldable pub golomb_decode : BitStream → ℕ → Result (ℕ × BitStream)
unfolding read_ones
golomb_decode s p = do
  (q, s1) ← read_ones (8 * length s.buffer + 1) 0 s
  (r, s2) ← read_bits_big_endian p s1
  ok ((q * 2 ^ p + r) % 2 ^ 64, s2)

-- slices.Sort
unfoldable pub insert : ℕ → List ℕ → List ℕ
insert x [] = x ∷ []
insert x (y ∷ ys) = let rest = insert x ys in if leb x y then x ∷ y ∷ ys else y ∷ rest

unfoldable pub sort : List ℕ → List ℕ
unfolding insert
sort [] = []
sort (x ∷ xs) = insert x (sort xs)

-- The differences of a sequence of uint64, encoded one behind the other
unfoldable pub encode_deltas : ℕ → ℕ → List ℕ → BitStream → Result BitStream
unfolding golomb_encode
encode_deltas p last [] s = ok s
encode_deltas p last (item ∷ items) s = do
  s' ← golomb_encode s ((item + 2 ^ 64 - last) % 2 ^ 64) p
  encode_deltas p item items s'

-- The loop over the items that are left
unfoldable pub match_from : ℕ → ℕ → ℕ → ℕ → BitStream → Result Bool
unfolding golomb_decode
match_from zero p target last s = ok false
match_from (suc n) p target last s = do
  (delta, s') ← golomb_decode s p
  (let current = (last + delta) % 2 ^ 64 in
      let later = match_from n p target current s' in
      if current == target then ok true else if ltb target current then ok false else later)

-- SipHash-2-4 under the keys of the filter is an argument.
module _ (sip_hash : List ℕ → ℕ) where
  unfoldable pub hash_all : List (List ℕ) → ℕ → ℕ → Result (List ℕ)
  hash_all [] n m = ok []
  hash_all (item ∷ items) n m = do
    value ← hash_to_range sip_hash item n m
    values ← hash_all items n m
    ok (value ∷ values)

  unfoldable pub hashed_set_construct : List (List ℕ) → ℕ → Result (List ℕ)
  unfolding hash_all
  hashed_set_construct items m = hash_all items (length items) m

  unfoldable pub new_gcs : List (List ℕ) → Result GolombCodedSet
  unfolding hashed_set_construct sort encode_deltas
  new_gcs items = do
    set_items ← hashed_set_construct items basic_m
    output ← encode_deltas basic_p 0 (sort set_items) new_bit_stream
    ok (record { num_items = length items; p = basic_p; m = basic_m; filter = bytes output })

  unfoldable pub match : GolombCodedSet → List ℕ → Result Bool
  unfolding match_from
  match g item = do
    target ← hash_to_range sip_hash item g.num_items g.m
    match_from g.num_items g.p target 0 (new_bit_stream_from_slice g.filter)

  unfoldable pub match_any : GolombCodedSet → List (List ℕ) → Result Bool
  unfolding match
  match_any g [] = ok false
  match_any g (item ∷ items) = do
    matched ← match g item
    (let others = match_any g items in if matched then ok true else others)

unfoldable pub serialize : GolombCodedSet → Result (List ℕ)
serialize g = do n_bytes ← encode_var_int g.num_items; ok (n_bytes ++ g.filter)

-- io.ReadAll takes what is left.
unfoldable pub parse_gcs_filter : List ℕ → Result GolombCodedSet
parse_gcs_filter bs = do
  (num_items, rest) ← read_var_int bs
  ok (record { num_items = num_items; p = basic_p; m = basic_m; filter = rest })
