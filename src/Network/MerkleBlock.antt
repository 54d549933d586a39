-- ===== src/Network/MerkleBlock.antt =====
-- internal/network/merkleblock.go: the merkle block message and its check.
pub mod Valid
mod Tests
use go_bitcoin.Base.{ℕ, List, Bool, false, Result, ok, err, panic, out_of_fuel, ◌>>=◌, bytes_equal}
use go_bitcoin.Base.Bytes.{read_full, le_decode}
use go_bitcoin.Base.Codes.{make, ◌>>◌, parse_many}
use go_bitcoin.Encoding.VarInt.{read_var_int}
use go_bitcoin.Encoding.BitField.{bytes_to_bit_field}
use go_bitcoin.Encoding.Hash.{Hashes}
use go_bitcoin.Encoding.Merkle.Tree.{MerkleTree, new_empty_merkle_tree, populate_tree, root}

pub record MerkleBlock : Type 0 where
  pub version : ℕ
  pub prev_block : List ℕ
  pub merkle_root : List ℕ
  pub time_stamp : ℕ
  pub bits : ℕ
  pub nonce : ℕ
  pub num_transactions : ℕ
  pub num_hashes : ℕ
  pub tx_hashes : List (List ℕ)
  pub num_flags : ℕ
  pub flag_bits : List ℕ

-- The flag bytes are read into a slice of their own, and taken apart into one byte for each bit.
unfoldable pub parse_merkle_block : List ℕ → Result (MerkleBlock × List ℕ)
parse_merkle_block bs = do
  (version, bs1) ← read_full 4 bs
  (prev_block, bs2) ← read_full 32 bs1
  (merkle_root, bs3) ← read_full 32 bs2
  (time_stamp, bs4) ← read_full 4 bs3
  (bits, bs5) ← read_full 4 bs4
  (nonce, bs6) ← read_full 4 bs5
  (num_transactions, bs7) ← read_full 4 bs6
  (num_hashes, bs8) ← read_var_int bs7
  make 32 num_hashes
  (hashes, bs9) ← parse_many (read_full 32) num_hashes bs8
  (num_flags, bs10) ← read_var_int bs9
  make 1 num_flags
  (flag_bytes, rest) ← read_full num_flags bs10
  ok (
    record {
      version = le_decode version;
      prev_block = prev_block;
      merkle_root = merkle_root;
      time_stamp = le_decode time_stamp;
      bits = le_decode bits;
      nonce = le_decode nonce;
      num_transactions = le_decode num_transactions;
      num_hashes = num_hashes;
      tx_hashes = hashes;
      num_flags = num_flags;
      flag_bits = bytes_to_bit_field flag_bytes;
    },
    rest,
  )

-- An error is the answer false; a panic stays one.
abbrev pub or_false : Result Bool → Result Bool
or_false (ok b) = ok b
or_false (err e) = ok false
or_false panic = panic
or_false out_of_fuel = out_of_fuel

unfoldable pub is_valid : Hashes → MerkleBlock → Result Bool
is_valid h mb = or_false (do
  empty ← new_empty_merkle_tree mb.num_transactions
  mt ← populate_tree h mb.flag_bits mb.tx_hashes empty
  found ← root mt
  ok (bytes_equal found mb.merkle_root))
