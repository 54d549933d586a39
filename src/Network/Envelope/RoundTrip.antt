-- ===== src/Network/Envelope/RoundTrip.antt =====
-- An envelope that is made, written and read back.
use go_bitcoin.Base.{ℕ, zero, suc, ◌+◌, ◌-◌, ◌*◌, ◌/◌, ◌%◌, ◌^◌, ◌≤◌, ◌<◌, Bool, false, arith}
use go_bitcoin.Base.{List, [], ◌∷◌, ◌++◌, reverse, append_assoc, length, take, All, ltb}
use go_bitcoin.Base.{length-take, ok, ◌≡◌, refl, ap, ◌∙◌, if◌then◌else◌, ==_refl}
use go_bitcoin.Base.Bytes.{IsByte, le_encode, le_decode, length-le_encode}
use go_bitcoin.Base.Bytes.{le_decode-le_encode, le_decode-lt}
use go_bitcoin.Base.Bytes.{copy_into}
use go_bitcoin.Base.Bytes.Reading.{length-copy_into, copy_into_whole, read_full-append}
use go_bitcoin.Base.BigInt.{length-reverse}
use native.Mathlib.Nat.{pow-le-pow_right}
use go_bitcoin.Encoding.Hash.{Hashes, hash256}
use go_bitcoin.Network.Envelope.{NetworkEnvelope, checksum, new_network_envelope}
use go_bitcoin.Network.Envelope.{command_bytes, cons_trimmed, trim_right, parse_network_envelope}
use go_bitcoin.Network.Envelope.{serialize, testnet_magic, mainnet_magic, envelope}

trim_right-padding : (k : ℕ) → trim_right (copy_into k []) ≡ []
unfolding trim_right cons_trimmed copy_into
trim_right-padding zero = refl
trim_right-padding (suc k) = rw (trim_right-padding k) refl

trim_right-copy_into :
    (k : ℕ) (xs : List ℕ) → length xs ≤ k → trim_right (copy_into k xs) ≡ trim_right xs
unfolding trim_right copy_into
trim_right-copy_into k [] h = trim_right-padding k
trim_right-copy_into zero (x ∷ xs) h = absurd (omega arith)
trim_right-copy_into (suc k) (x ∷ xs) h =
    ap (λ l. cons_trimmed x l) (trim_right-copy_into k xs (omega arith))

All-take : (n : ℕ) (xs : List ℕ) → All IsByte xs → All IsByte (take n xs)
All-take zero xs h = tt
All-take (suc n) [] h = tt
All-take (suc n) (x ∷ xs) (h, hs) = (h, All-take n xs hs)

-- The four bytes of a number in the opposite order.
pub byte_swapped : ℕ → ℕ
byte_swapped m =
    m % 256 * 2 ^ 24 + m / 2 ^ 8 % 256 * 2 ^ 16 + m / 2 ^ 16 % 256 * 2 ^ 8 + m / 2 ^ 24 % 256

swapped : (m : ℕ) → le_decode (reverse (le_encode 4 m)) ≡ byte_swapped m
unfolding le_decode le_encode byte_swapped
swapped m = omega arith

length-big_endian : (m : ℕ) → length (reverse (le_encode 4 m)) ≡ 4
length-big_endian m = length-reverse (le_encode 4 m) ∙ length-le_encode 4 m

-- The bytes of an envelope with its fields in place.
wire : ℕ → List ℕ → ℕ → List ℕ → List ℕ
wire magic command sum payload =
    reverse (le_encode 4 magic)
    ++ (copy_into 12 command ++ (le_encode 4 (length payload) ++ (le_encode 4 sum ++ payload)))

module _ (h : Hashes) where
  -- Four bytes of a hash are a uint32.
  checksum_fits : (payload : List ℕ) → All IsByte (hash256 h payload) → checksum h payload < 2 ^ 32
  unfolding checksum
  checksum_fits payload bytes =
      let four = take 4 (hash256 h payload) in
      let bound = le_decode-lt four (All-take 4 (hash256 h payload) bytes) in
      let len : length four ≤ 4 = omega (arith, length-take 4 (hash256 h payload)) in
      let most : 256 ^ length four ≤ 256 ^ 4 = pow-le-pow_right (omega arith) len in omega arith

  parse_serialize :
      (magic : ℕ) (command payload rest : List ℕ)
      → length command ≤ 12
      → trim_right command ≡ command
      → length payload + 24 < 2 ^ 32
      → All IsByte (hash256 h payload)
      → (bs : List ℕ) × (serialize
            (envelope magic command (length payload) (checksum h payload) payload)
          ≡ ok bs)
        × (parse_network_envelope h (bs ++ rest)
            ≡ ok (
              envelope (byte_swapped magic) command (length payload) (checksum h payload) payload,
              rest,
            ))
  unfolding serialize parse_network_envelope command_bytes wire
  parse_serialize magic command payload rest short trimmed fits bytes =
      let n = length payload in
      let size : (24 + n) % 2 ^ 32 - 24 ≡ n = omega arith in
      let enough : ltb ((24 + n) % 2 ^ 32) 24 ≡ false = ground arith in
      let room : ltb n n ≡ false = ground arith in
      let name = copy_into 12 command in
      (
        wire magic command (checksum h payload) payload,
        rw (enough, size, room, copy_into_whole payload) refl,
        rw
            (
              append_assoc,
              append_assoc,
              append_assoc,
              append_assoc,
              read_full-append 4 (reverse (le_encode 4 magic)) _ (length-big_endian magic),
              read_full-append 12 name _ (length-copy_into 12 command),
              read_full-append 4 (le_encode 4 n) _ (length-le_encode 4 n),
              read_full-append 4 (le_encode 4 (checksum h payload)) _
                  (length-le_encode 4 (checksum h payload)),
              le_decode-le_encode 4 n (omega arith),
              read_full-append n payload rest refl,
              le_decode-le_encode 4 (checksum h payload) (checksum_fits payload bytes),
              ==_refl (checksum h payload),
              trim_right-copy_into 12 command short,
              trimmed,
              swapped magic,
            )
            refl,
      )

  -- An envelope that NewNetworkEnvelope makes is written by Serialize and read back by
  -- ParseNetworkEnvelope, whatever follows it, but for the bytes of its magic number, which come back in
  -- the opposite order. The command has at most 12 bytes, the last of which is not zero, the payload is
  -- 24 bytes below 4 GiB, and the hash is a list of bytes.
  pub parse_network_envelope-serialize :
      (command payload rest : List ℕ) (test_net : Bool)
      → length command ≤ 12
      → trim_right command ≡ command
      → length payload + 24 < 2 ^ 32
      → All IsByte (hash256 h payload)
      → (env : NetworkEnvelope) × (bs : List ℕ) × (new_network_envelope h command payload test_net
          ≡ ok env)
        × (serialize env ≡ ok bs)
        × (parse_network_envelope h (bs ++ rest)
            ≡ ok (record env { magic = byte_swapped env.magic }, rest))
  unfolding new_network_envelope
  parse_network_envelope-serialize command payload rest test_net short trimmed fits bytes =
      let magic = if test_net then testnet_magic else mainnet_magic in
      let (bs, written, read_back) =
        parse_serialize magic command payload rest short trimmed fits bytes in
      let small : length payload % 2 ^ 32 ≡ length payload = omega arith in
      let allowed : ltb 12 (length command) ≡ false = ground arith in
      (
        envelope magic command (length payload) (checksum h payload) payload,
        bs,
        rw (allowed, small) refl,
        written,
        read_back,
      )
