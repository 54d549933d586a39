-- ===== src/Block/Header/RoundTrip.antt =====
-- Block headers and their 80 bytes.
use go_bitcoin.Base.{ℕ, List, [], ◌++◌, append_assoc}
use go_bitcoin.Base.{ok, ◌≡◌, refl}
use go_bitcoin.Base.Bytes.{le_encode, length-le_encode}
use go_bitcoin.Base.Bytes.{le_decode-le_encode}
use go_bitcoin.Base.Bytes.Reading.{read_full-append}
use go_bitcoin.Block.Header.{Block, IsHeader, parse_block, serialize}

-- ParseBlock reads back the header that Serialize wrote, whatever follows it, and leaves what
-- follows. The transaction hashes are no part of the header.
pub parse_block-serialize :
    (b : Block) (rest : List ℕ)
    → IsHeader b
    → parse_block (serialize b ++ rest) ≡ ok (record b { tx_hashes = [] }, rest)
unfolding parse_block serialize
parse_block-serialize b rest h =
    rw
      (
        append_assoc,
        append_assoc,
        append_assoc,
        append_assoc,
        append_assoc,
        read_full-append 4 (le_encode 4 b.version) _ (length-le_encode 4 b.version),
        read_full-append 32 b.prev_block _ h.prev_block_32,
        read_full-append 32 b.merkle_root _ h.merkle_root_32,
        read_full-append 4 (le_encode 4 b.time_stamp) _ (length-le_encode 4 b.time_stamp),
        read_full-append 4 (le_encode 4 b.bits) _ (length-le_encode 4 b.bits),
        read_full-append 4 (le_encode 4 b.nonce) _ (length-le_encode 4 b.nonce),
        le_decode-le_encode 4 b.version h.version_fits,
        le_decode-le_encode 4 b.time_stamp h.time_stamp_fits,
        le_decode-le_encode 4 b.bits h.bits_fits,
        le_decode-le_encode 4 b.nonce h.nonce_fits,
      )
      refl
