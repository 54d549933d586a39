-- ===== src/Network/Tests.antt =====
-- Runs of the envelope and of the reduction at concrete values.
use go_bitcoin.Base.{
  ℕ, zero, suc, ◌+◌, ◌*◌, ◌/◌, ◌%◌, ◌^◌, ◌<◌, true, false, List, [], ◌∷◌, ◌++◌, ok, ◌≡◌, refl,
  arith,
}
use go_bitcoin.Base.{All}
use go_bitcoin.Base.Bytes.{IsByte}
use go_bitcoin.Encoding.Hash.{Hashes, hash256}
use go_bitcoin.Network.Envelope.{NetworkEnvelope, new_network_envelope, trim_right, cons_trimmed}
use go_bitcoin.Network.Envelope.{parse_network_envelope, serialize}
use go_bitcoin.Network.Envelope.RoundTrip.{byte_swapped, parse_network_envelope-serialize}
use go_bitcoin.Network.Gcs.{GolombCodedSet, new_gcs, match}
use go_bitcoin.Base.Membership.{Has}
use go_bitcoin.Network.Gcs.Members.{new_gcs-match}
use go_bitcoin.Network.Reduction.{fast_reduction, fast_reduction-eq}

abbrev repeated : ℕ → List ℕ
repeated zero = []
repeated (suc k) = 1 ∷ repeated k

abbrev constant_hashes : Hashes
constant_hashes = record {
  sha256 = λ bs. repeated 32;
  sha1 = λ bs. repeated 20;
  ripemd160 = λ bs. repeated 20;
  length-sha256 = λ bs. refl;
  length-ripemd160 = λ bs. refl;
}

repeated-IsByte : (k : ℕ) → All IsByte (repeated k)
repeated-IsByte zero = tt
repeated-IsByte (suc k) = (omega arith, repeated-IsByte k)

hash256-IsByte : (payload : List ℕ) → All IsByte (hash256 constant_hashes payload)
unfolding hash256
hash256-IsByte payload = repeated-IsByte 32

-- The command "verack", with an empty payload.
abbrev verack : List ℕ
verack = 0x76 ∷ 0x65 ∷ 0x72 ∷ 0x61 ∷ 0x63 ∷ 0x6b ∷ []

parse_network_envelope-serialize_example :
    (env : NetworkEnvelope) × (bs : List ℕ) × (new_network_envelope constant_hashes verack [] false
      ≡ ok env)
    × (serialize env ≡ ok bs)
    × (parse_network_envelope constant_hashes (bs ++ (5 ∷ []))
        ≡ ok (record env { magic = byte_swapped env.magic }, 5 ∷ []))
unfolding trim_right cons_trimmed
parse_network_envelope-serialize_example =
    parse_network_envelope-serialize constant_hashes verack [] (5 ∷ []) false (omega arith) refl
      (omega arith) (hash256-IsByte [])

fast_reduction-eq_example :
    fast_reduction (2 ^ 63 + 12345) 784931 ≡ (2 ^ 63 + 12345) * 784931 / 2 ^ 64
fast_reduction-eq_example = fast_reduction-eq (2 ^ 63 + 12345) 784931 (omega arith) (omega arith)

-- A hash of the first byte, in the high half of 64 bits
abbrev first_byte_hash : List ℕ → ℕ
first_byte_hash [] = 0
first_byte_hash (b ∷ bs) = b * 2 ^ 56 % 2 ^ 64

first_byte_hash-lt : (item : List ℕ) → first_byte_hash item < 2 ^ 64
first_byte_hash-lt [] = omega arith
first_byte_hash-lt (b ∷ bs) = omega arith

abbrev two_items : List (List ℕ)
two_items = (200 ∷ []) ∷ (7 ∷ 8 ∷ []) ∷ []

new_gcs-match_example :
    (g : GolombCodedSet) × (new_gcs first_byte_hash two_items ≡ ok g)
    × ((item : List ℕ) → Has item two_items → match first_byte_hash g item ≡ ok true)
new_gcs-match_example =
    new_gcs-match first_byte_hash two_items (omega arith) (omega arith) first_byte_hash-lt
