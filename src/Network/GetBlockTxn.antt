-- ===== src/Network/GetBlockTxn.antt =====
-- GetBlockTransactionMessage of internal/network/compact.go: the transactions of a block by
-- differences of their indexes. An int is its bit pattern below 2^64.
use go_bitcoin.Base.{
  ℕ, zero, suc, ◌+◌, ◌-◌, ◌%◌, ◌^◌, ◌≤◌, ◌<◌, List, [], ◌∷◌, ◌++◌, append_assoc, ltb, if◌then◌else◌,
}
use go_bitcoin.Base.{false, length, Result, ok, panic, ◌>>=◌, ◌≡◌, refl, arith}
use go_bitcoin.Base.Bytes.{read_full}
use go_bitcoin.Base.Bytes.Reading.{read_full-append}
use go_bitcoin.Encoding.VarInt.{read_var_int, encode_var_int}
use go_bitcoin.Encoding.VarInt.Shape.{var_int, encode_var_int-eq-var_int, read_var_int-var_int}

pub record GetBlockTransactionMessage : Type 0 where
  pub block_hash : List ℕ
  pub indexes : List ℕ

abbrev pub message : List ℕ → List ℕ → GetBlockTransactionMessage
message h is = record { block_hash = h; indexes = is }

-- -1, where both loops start
abbrev pub no_index : ℕ
no_index = 2 ^ 64 - 1

-- The loop of the parser for `n` indexes behind `prev`
unfoldable pub parse_indexes : ℕ → ℕ → List ℕ → Result (List ℕ × List ℕ)
parse_indexes zero prev bs = ok ([], bs)
parse_indexes (suc n) prev bs = do
  (diff, rest) ← read_var_int bs
  let actual = (prev + diff + 1) % 2 ^ 64
  (more, rest') ← parse_indexes n actual rest
  ok (actual ∷ more, rest')

-- `make([]int, idxLen)` panics where the indexes would fill more than 2^48 bytes.
unfoldable pub parse_get_block_transaction_message :
    List ℕ → Result (GetBlockTransactionMessage × List ℕ)
unfolding parse_indexes
parse_get_block_transaction_message bs = do
  (bh, bs1) ← read_full 32 bs
  (idx_len, bs2) ← read_var_int bs1
  (if ltb (2 ^ 45) idx_len
      then panic
      else (do (idxs, rest) ← parse_indexes idx_len no_index bs2; ok (message bh idxs, rest)))

unfoldable pub index_bytes : ℕ → List ℕ → Result (List ℕ)
index_bytes prev [] = ok []
index_bytes prev (i ∷ is) = do
  diff ← encode_var_int ((i + 2 ^ 64 - prev + 2 ^ 64 - 1) % 2 ^ 64)
  rest ← index_bytes i is
  ok (diff ++ rest)

unfoldable pub serialize : GetBlockTransactionMessage → Result (List ℕ)
unfolding index_bytes
serialize m = do
  idx_len ← encode_var_int (length m.indexes)
  diffs ← index_bytes no_index m.indexes
  ok (m.block_hash ++ (idx_len ++ diffs))

-- Indexes in ascending order, from `least` on, that a signed int holds.
abbrev pub IsAscending : ℕ → List ℕ → Type 0
IsAscending least [] = Unit
IsAscending least (i ∷ is) = (least ≤ i) × (i < 2 ^ 63) × IsAscending (i + 1) is

module _ (prev least i : ℕ) (is bs rest : List ℕ) (h : prev < 2 ^ 64)
    (next : (prev + 1) % 2 ^ 64 ≡ least) (low : least ≤ i) (high : i < 2 ^ 63) where
  abbrev diff : ℕ
  diff = (i + 2 ^ 64 - prev + 2 ^ 64 - 1) % 2 ^ 64

  diff_small : diff < 2 ^ 64 - 1
  diff_small = ground arith

  one_index_written : index_bytes i is ≡ ok bs → index_bytes prev (i ∷ is) ≡ ok (var_int diff ++ bs)
  unfolding index_bytes
  one_index_written written = rw (encode_var_int-eq-var_int diff diff_small, written) refl

  one_index_read :
      parse_indexes (length is) i (bs ++ rest) ≡ ok (is, rest)
      → parse_indexes (length (i ∷ is)) prev ((var_int diff ++ bs) ++ rest) ≡ ok (i ∷ is, rest)
  unfolding parse_indexes
  one_index_read read =
      let back : (prev + diff + 1) % 2 ^ 64 ≡ i = ground arith in
      rw (append_assoc, read_var_int-var_int diff (bs ++ rest) diff_small, back, read) refl

parse_indexes-index_bytes :
    (prev least : ℕ) (is rest : List ℕ)
    → prev < 2 ^ 64
    → (prev + 1) % 2 ^ 64 ≡ least
    → IsAscending least is
    → (bs : List ℕ) × (index_bytes prev is ≡ ok bs)
      × (parse_indexes (length is) prev (bs ++ rest) ≡ ok (is, rest))
unfolding parse_indexes index_bytes
parse_indexes-index_bytes prev least [] rest h next up = ([], refl, refl)
parse_indexes-index_bytes prev least (i ∷ is) rest h next (low, high, up) =
    let (bs, written, read) =
      parse_indexes-index_bytes i (i + 1) is rest (omega arith) (omega arith) up in
    (
      var_int (diff prev least i is bs rest h next low high) ++ bs,
      one_index_written prev least i is bs rest h next low high written,
      one_index_read prev least i is bs rest h next low high read,
    )

-- A request for transactions in ascending order, at most 2^45 of them, of a block with a hash of 32 bytes
-- is written by Serialize and read back by ParseGetBlockTransactionMessage, whatever follows it.
pub parse_get_block_transaction_message-serialize :
    (m : GetBlockTransactionMessage) (rest : List ℕ)
    → length m.block_hash ≡ 32
    → length m.indexes ≤ 2 ^ 45
    → IsAscending 0 m.indexes
    → (bs : List ℕ) × (serialize m ≡ ok bs)
      × (parse_get_block_transaction_message (bs ++ rest) ≡ ok (m, rest))
unfolding parse_get_block_transaction_message serialize
parse_get_block_transaction_message-serialize m rest hash_32 few up =
    let n = length m.indexes in
    let (bs, written, read) =
      parse_indexes-index_bytes no_index 0 m.indexes rest (omega arith) (omega arith) up in
    let allowed : ltb (2 ^ 45) n ≡ false = ground arith in
    (
      m.block_hash ++ (var_int n ++ bs),
      rw (encode_var_int-eq-var_int n (omega arith), written) refl,
      rw
          (
            append_assoc,
            append_assoc,
            read_full-append 32 m.block_hash (var_int n ++ (bs ++ rest)) hash_32,
            read_var_int-var_int n (bs ++ rest) (omega arith),
            allowed,
            read,
          )
          refl,
    )
