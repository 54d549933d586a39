-- ===== src/Encoding/Base58.antt =====
-- internal/encoding/base58.go. A text is the list of its code points.
pub mod RoundTrip
use go_bitcoin.Base.{
  ℕ, zero, suc, ◌+◌, ◌-◌, ◌*◌, ◌/◌, ◌%◌, List, [], ◌∷◌, ◌++◌, Option, none, some, ltb, ◌==◌,
}
use go_bitcoin.Base.{
  if◌then◌else◌, length, take, drop, bytes_equal, Result, ok, err, panic, ◌>>=◌, invalid_input,
  bad_length,
}
use go_bitcoin.Base.BigInt.{to_bytes, set_bytes}
use go_bitcoin.Encoding.Hash.{Hashes, hash256}

-- "123456789ABCDEFGHJKLMNPQRSTUVWXYZabcdefghijkmnopqrstuvwxyz" by its runs of neighbours, which leave out 0, I, O and l
unfoldable pub alphabet : ℕ → ℕ
alphabet i =
    if ltb i 9
    then i + 49
    else if ltb i 17
    then i - 9 + 65
    else if ltb i 22
    then i - 17 + 74
    else if ltb i 33
    then i - 22 + 80
    else if ltb i 44
    then i - 33 + 97
    else i - 44 + 109

unfoldable pub leading : ℕ → List ℕ → ℕ
leading c [] = 0
leading c (b ∷ bs) = let rest = leading c bs in if b == c then suc rest else 0

unfoldable pub repeated : ℕ → ℕ → List ℕ
repeated c zero = []
repeated c (suc k) = c ∷ repeated c k

-- The digits of the number in front of what there is. The number itself is fuel enough.
unfoldable pub encode_loop : ℕ → ℕ → List ℕ → List ℕ
unfolding alphabet
encode_loop zero num result = result
encode_loop (suc fuel) num result =
    let rest = encode_loop fuel (num / 58) (alphabet (num % 58) ∷ result) in
    if num == 0 then result else rest

unfoldable pub encode_base58 : List ℕ → List ℕ
unfolding encode_loop leading repeated
encode_base58 bs = repeated 49 (leading 0 bs) ++ encode_loop (set_bytes bs) (set_bytes bs) []

-- The place of a character in the alphabet, searched from `i` on
unfoldable pub index_from : ℕ → ℕ → ℕ → Option ℕ
unfolding alphabet
index_from zero i c = none
index_from (suc k) i c =
    let rest = index_from k (suc i) c in if alphabet i == c then some i else rest

unfoldable pub get_index : ℕ → Option ℕ
unfolding index_from
get_index c = index_from 58 0 c

abbrev pub or_invalid : Option ℕ → Result ℕ
or_invalid none = err invalid_input
or_invalid (some i) = ok i

-- Each rune is cut down to its low byte before it is looked up.
unfoldable pub decode_loop : ℕ → List ℕ → Result ℕ
unfolding get_index
decode_loop num [] = ok num
decode_loop num (c ∷ cs) = do
  index ← or_invalid (get_index (c % 256))
  decode_loop (num * 58 + index) cs

-- valueWithVersion[1:]
unfoldable pub without_version : List ℕ → Result (List ℕ)
without_version [] = panic
without_version (v ∷ bs) = ok bs

module _ (h : Hashes) where
  unfoldable pub encode_base58_checksum : List ℕ → List ℕ
  unfolding encode_base58
  encode_base58_checksum bs = encode_base58 (bs ++ take 4 (hash256 h bs))

  -- The last four bytes against the checksum of the others
  unfoldable pub checked : List ℕ → Result (List ℕ)
  unfolding without_version
  checked combined =
      let size = length combined - 4 in
      let value = take size combined in
      if ltb (length combined) 4
      then err bad_length
      else if bytes_equal (take 4 (hash256 h value)) (drop size combined)
      then without_version value
      else err invalid_input

  unfoldable pub decode_base58 : List ℕ → Result (List ℕ)
  unfolding decode_loop checked leading repeated
  decode_base58 text = do
    num ← decode_loop 0 text
    checked (repeated 0 (leading 49 text) ++ to_bytes num)
