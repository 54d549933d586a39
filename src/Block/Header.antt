-- ===== src/Block/Header.antt =====
-- The block header, ParseBlock and Serialize of internal/block/block.go.
pub mod RoundTrip
use go_bitcoin.Base.{ℕ, ◌+◌, ◌^◌, ◌<◌, List, [], ◌∷◌, ◌++◌, length, All, ◌≡◌}
use go_bitcoin.Base.{Result, ok, ◌>>=◌}
use go_bitcoin.Base.Bytes.{IsByte, le_encode, le_decode, read_full}

pub record Block : Type 0 where
  pub version : ℕ
  pub prev_block : List ℕ
  pub merkle_root : List ℕ
  pub time_stamp : ℕ
  pub bits : ℕ
  pub nonce : ℕ
  pub tx_hashes : List (List ℕ)

-- What the Go types of the header's fields say.
pub record IsHeader (b : Block) : Type 0 where
  pub version_fits : b.version < 2 ^ 32
  pub prev_block_32 : length b.prev_block ≡ 32
  pub merkle_root_32 : length b.merkle_root ≡ 32
  pub time_stamp_fits : b.time_stamp < 2 ^ 32
  pub bits_fits : b.bits < 2 ^ 32
  pub nonce_fits : b.nonce < 2 ^ 32

abbrev pub new_block : ℕ → List ℕ → List ℕ → ℕ → ℕ → ℕ → List (List ℕ) → Block
new_block v p m t b n txs = record {
  version = v;
  prev_block = p;
  merkle_root = m;
  time_stamp = t;
  bits = b;
  nonce = n;
  tx_hashes = txs;
}

unfoldable pub parse_block : List ℕ → Result (Block × List ℕ)
parse_block bs = do
  (version, bs1) ← read_full 4 bs
  (prev_block, bs2) ← read_full 32 bs1
  (merkle_root, bs3) ← read_full 32 bs2
  (time_stamp, bs4) ← read_full 4 bs3
  (bits, bs5) ← read_full 4 bs4
  (nonce, bs6) ← read_full 4 bs5
  ok (
    new_block (le_decode version) prev_block merkle_root (le_decode time_stamp) (le_decode bits)
        (le_decode nonce) [],
    bs6,
  )

unfoldable pub serialize : Block → List ℕ
serialize b =
    le_encode 4 b.version
    ++ (b.prev_block
        ++ (b.merkle_root
            ++ (le_encode 4 b.time_stamp ++ (le_encode 4 b.bits ++ le_encode 4 b.nonce))))
