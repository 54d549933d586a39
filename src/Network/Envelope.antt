-- ===== src/Network/Envelope.antt =====
-- The message envelope, internal/network/network.go.
pub mod RoundTrip
use go_bitcoin.Base.{
  ℕ, zero, suc, ◌+◌, ◌-◌, ◌%◌, ◌^◌, Bool, true, false, List, [], ◌∷◌, ◌++◌, reverse,
}
use go_bitcoin.Base.{length, take, ltb, ◌==◌, if◌then◌else◌}
use go_bitcoin.Base.{Result, ok, err, panic, ◌>>=◌, invalid_input}
use go_bitcoin.Base.Bytes.{copy_into, le_encode, le_decode, read_full}
use go_bitcoin.Encoding.Hash.{Hashes, hash256}

abbrev pub mainnet_magic : ℕ
mainnet_magic = 0xf9beb4d9

abbrev pub testnet_magic : ℕ
testnet_magic = 0x0b110907

pub record NetworkEnvelope : Type 0 where
  pub magic : ℕ
  pub command : List ℕ
  pub payload_len : ℕ
  pub payload_checksum : ℕ
  pub payload : List ℕ

abbrev pub envelope : ℕ → List ℕ → ℕ → ℕ → List ℕ → NetworkEnvelope
envelope m c n k p = record {
  magic = m;
  command = c;
  payload_len = n;
  payload_checksum = k;
  payload = p;
}

-- binary.LittleEndian.Uint32(hash[:4])
unfoldable pub checksum : Hashes → List ℕ → ℕ
checksum h payload = le_decode (take 4 (hash256 h payload))

unfoldable pub new_network_envelope : Hashes → List ℕ → List ℕ → Bool → Result NetworkEnvelope
unfolding checksum
new_network_envelope h command payload test_net =
    if ltb 12 (length command)
    then err invalid_input
    else ok (
        envelope (if test_net then testnet_magic else mainnet_magic) command
          (length payload % 2 ^ 32) (checksum h payload) payload)

unfoldable pub command_bytes : NetworkEnvelope → List ℕ
unfolding copy_into
command_bytes n = copy_into 12 n.command

-- `bytes.TrimRight(commandBytes, "\x00")`
unfoldable pub cons_trimmed : ℕ → List ℕ → List ℕ
cons_trimmed x [] = if x == 0 then [] else x ∷ []
cons_trimmed x (y ∷ ys) = x ∷ y ∷ ys

unfoldable pub trim_right : List ℕ → List ℕ
unfolding cons_trimmed
trim_right [] = []
trim_right (x ∷ xs) = cons_trimmed x (trim_right xs)

unfoldable pub parse_network_envelope : Hashes → List ℕ → Result (NetworkEnvelope × List ℕ)
unfolding trim_right checksum
parse_network_envelope h bs = do
  (magic_bytes, bs1) ← read_full 4 bs
  (command_bs, bs2) ← read_full 12 bs1
  (len_bytes, bs3) ← read_full 4 bs2
  (checksum_bytes, bs4) ← read_full 4 bs3
  (payload, bs5) ← read_full (le_decode len_bytes) bs4
  (if le_decode checksum_bytes == checksum h payload
      then ok (
        envelope (le_decode magic_bytes) (trim_right command_bs) (le_decode len_bytes)
            (le_decode checksum_bytes) payload,
        bs5,
      )
      else err invalid_input)

-- The buffer's size is a uint32, so it wraps for the 24 greatest lengths: it is then too short for the
-- header, which panics. `binary.BigEndian.PutUint32` writes the magic number.
unfoldable pub serialize : NetworkEnvelope → Result (List ℕ)
unfolding command_bytes copy_into
serialize n =
    let size = (24 + n.payload_len) % 2 ^ 32 in
    if ltb size 24
    then panic
    else if ltb (size - 24) n.payload_len
    then err invalid_input
    else ok (
        reverse (le_encode 4 n.magic)
        ++ (command_bytes n
            ++ (le_encode 4 n.payload_len
                ++ (le_encode 4 n.payload_checksum ++ copy_into (size - 24) n.payload))))
