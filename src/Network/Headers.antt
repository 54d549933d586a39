-- ===== src/Network/Headers.antt =====
-- internal/network/getheaders.go: the request for block headers and the answer to it.
use go_bitcoin.Base.{
  ℕ, ◌-◌, ◌*◌, ◌^◌, ◌≤◌, ◌<◌, List, [], ◌∷◌, ◌++◌, append_assoc, length, All, Option, none, some,
}
use go_bitcoin.Base.{Result, ok, err, ◌>>=◌, invalid_input, if◌then◌else◌, ◌==◌, ◌≡◌, refl, arith}
use go_bitcoin.Base.Bytes.{le_encode}
use go_bitcoin.Base.Codes.{
  make, make-ok, ◌>>◌, parse_many, write_many, Codes, CodesBefore, Codes-many,
}
use go_bitcoin.Encoding.VarInt.{read_var_int, encode_var_int}
use go_bitcoin.Encoding.VarInt.Shape.{var_int, encode_var_int-eq-var_int, read_var_int-var_int}
use go_bitcoin.Block.Header.{Block, IsHeader, parse_block}
use go_bitcoin.Block.Header
use go_bitcoin.Block.Header.RoundTrip.{parse_block-serialize}

pub record GetHeadersMessage : Type 0 where
  pub version : ℕ
  pub block_locators : List (List ℕ)
  pub hash_stop : List ℕ

-- `[32]byte{}`
abbrev pub no_stop : List ℕ
no_stop =
    0 ∷ 0 ∷ 0 ∷ 0 ∷ 0 ∷ 0 ∷ 0 ∷ 0 ∷ 0 ∷ 0 ∷ 0 ∷ 0 ∷ 0 ∷ 0 ∷ 0 ∷ 0 ∷ 0 ∷ 0 ∷ 0 ∷ 0 ∷ 0 ∷ 0 ∷ 0 ∷ 0
    ∷ 0 ∷ 0 ∷ 0 ∷ 0 ∷ 0 ∷ 0 ∷ 0 ∷ 0 ∷ []

unfoldable pub new_get_headers_message : ℕ → List (List ℕ) → Option (List ℕ) → GetHeadersMessage
new_get_headers_message version locators none = record {
  version = version;
  block_locators = locators;
  hash_stop = no_stop;
}
new_get_headers_message version locators (some stop) = record {
  version = version;
  block_locators = locators;
  hash_stop = stop;
}

unfoldable pub serialize_get_headers : GetHeadersMessage → Result (List ℕ)
serialize_get_headers g = do
  hashes ← encode_var_int (length g.block_locators)
  locators ← write_many ok g.block_locators
  ok (le_encode 4 g.version ++ (hashes ++ (locators ++ g.hash_stop)))

pub record HeadersMessage : Type 0 where
  pub blocks : List Block

-- A header behind which no transactions are counted
unfoldable pub parse_header : List ℕ → Result (Block × List ℕ)
parse_header bs = do
  (b, bs1) ← parse_block bs
  (num_tx, rest) ← read_var_int bs1
  if num_tx == 0 then ok (b, rest) else err invalid_input

-- A Block is 104 bytes in memory.
unfoldable pub parse_headers_message : List ℕ → Result (HeadersMessage × List ℕ)
unfolding parse_header
parse_headers_message bs = do
  (num_headers, bs1) ← read_var_int bs
  make 104 num_headers
  (blocks, rest) ← parse_many parse_header num_headers bs1
  ok (record { blocks = blocks }, rest)

unfoldable pub header_bytes : Block → List ℕ
header_bytes b = Header.serialize b ++ (0 ∷ [])

unfoldable pub serialize : HeadersMessage → Result (List ℕ)
unfolding header_bytes
serialize h = do
  num_headers ← encode_var_int (length h.blocks)
  body ← write_many (λ b. ok (header_bytes b)) h.blocks
  ok (num_headers ++ body)

-- A header as ParseBlock gives it, without transaction hashes
abbrev pub IsBare : Block → Type 0
IsBare b = IsHeader b × (b.tx_hashes ≡ [])

no_transactions : (rest : List ℕ) → read_var_int (0 ∷ rest) ≡ ok (0, rest)
unfolding var_int
no_transactions rest = read_var_int-var_int 0 rest (omega arith)

read_header :
    (b : Block) (rest : List ℕ) → IsBare b → parse_header (header_bytes b ++ rest) ≡ ok (b, rest)
unfolding parse_header header_bytes
read_header b rest (header, bare) =
    rw (append_assoc, parse_block-serialize b (0 ∷ rest) header, no_transactions rest, bare) refl

headers-Codes :
    (blocks : List Block)
    → All IsBare blocks
    → All (λ b. CodesBefore 0 parse_header (ok (header_bytes b)) b) blocks
headers-Codes [] h = tt
headers-Codes (b ∷ blocks) (h, hs) =
    ((header_bytes b, refl, λ rest k. read_header b rest h), headers-Codes blocks hs)

-- Headers without transaction hashes, as many as can be allocated, are written by Serialize and read back by
-- ParseHeadersMessage in front of anything.
pub parse_headers_message-serialize :
    (msg : HeadersMessage)
    → All IsBare msg.blocks
    → 104 * length msg.blocks ≤ 2 ^ 48
    → Codes parse_headers_message (serialize msg) msg
unfolding parse_headers_message serialize
parse_headers_message-serialize msg bare few =
    let n = length msg.blocks in
    let n_fits : n < 2 ^ 64 - 1 = omega arith in
    let (body, written, taken) =
      Codes-many 0 parse_header (λ b. ok (header_bytes b)) msg.blocks
        (headers-Codes msg.blocks bare) in
    (
      var_int n ++ body,
      rw (encode_var_int-eq-var_int n n_fits, written) refl,
      λ rest.
          rw
            (
              append_assoc,
              read_var_int-var_int n (body ++ rest) n_fits,
              make-ok 104 n few,
              taken rest (omega arith),
            )
            refl,
    )
