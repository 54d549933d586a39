-- ===== src/Block/Tests.antt =====
-- Runs of the block header's operations at concrete headers.
use go_bitcoin.Base.{ℕ, zero, suc, List, [], ◌∷◌, ◌++◌, ok, ◌≡◌, refl, arith}
use go_bitcoin.Block.Header.{Block, IsHeader, new_block, parse_block, serialize}
use go_bitcoin.Block.Header.RoundTrip.{parse_block-serialize}
use go_bitcoin.Block.Target.{bits_to_target, target_to_bits, calc_new_bits}
use go_bitcoin.Block.Target.Compact.{target_to_bits-bits_to_target}
use go_bitcoin.Block.Target.Retarget.{calc_new_bits-two_weeks}

abbrev ones : ℕ → List ℕ
ones zero = []
ones (suc k) = 1 ∷ ones k

abbrev pub header_at : ℕ → Block
header_at time = new_block 2 (ones 32) (ones 32) time 0x1b0404cb 42 []

pub header_at-IsHeader : IsHeader (header_at 1500000000)
header_at-IsHeader = record {
  version_fits = omega arith;
  prev_block_32 = refl;
  merkle_root_32 = refl;
  time_stamp_fits = omega arith;
  bits_fits = omega arith;
  nonce_fits = omega arith;
}

parse_block-serialize_example :
    parse_block (serialize (header_at 1500000000) ++ (9 ∷ [])) ≡ ok (header_at 1500000000, 9 ∷ [])
parse_block-serialize_example =
    parse_block-serialize (header_at 1500000000) (9 ∷ []) header_at-IsHeader

target_to_bits-bits_to_target_example : target_to_bits (bits_to_target 0x1b0404cb) ≡ 0x1b0404cb
target_to_bits-bits_to_target_example =
    target_to_bits-bits_to_target 0x1b0404cb (omega arith) (omega arith) (omega arith) (omega arith)

calc_new_bits-two_weeks_example :
    calc_new_bits (header_at 1500000000) (header_at 1501209600) ≡ 0x1b0404cb
unfolding bits_to_target
calc_new_bits-two_weeks_example =
    calc_new_bits-two_weeks (header_at 1500000000) (header_at 1501209600) (omega arith) refl
      (omega arith) (omega arith) (omega arith) (omega arith) (omega arith)
