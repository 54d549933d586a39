-- ===== src/Block/Target.antt =====
-- The difficulty target and its compact form, of internal/block/block.go.
use go_bitcoin.Base.{ℕ, ◌+◌, ◌-◌, ◌*◌, ◌/◌, ◌%◌, ◌^◌, bit_and, bit_or, Bool, true, false, not, ◌&&◌}
use go_bitcoin.Base.{List, [], ◌∷◌, reverse, length, ltb, leb, ◌==◌, if◌then◌else◌}
use go_bitcoin.Base.BigInt.{to_bytes, set_bytes}
use go_bitcoin.Encoding.Hash.{Hashes, hash256}
use go_bitcoin.Block.Header.{Block, serialize}
pub mod Compact
pub mod Retarget

abbrev pub lowest_bits : ℕ
lowest_bits = 0x1d00ffff

abbrev pub bits_coeff_mask : ℕ
bits_coeff_mask = 0x00ffffff

abbrev pub bits_high_bit_mask : ℕ
bits_high_bit_mask = 0x7f

abbrev pub two_weeks : ℕ
two_weeks = 60 * 60 * 24 * 14

abbrev pub eight_weeks : ℕ
eight_weeks = two_weeks * 4

abbrev pub three_half_days : ℕ
three_half_days = two_weeks / 4

-- b.bitsToTarget(), which reads the field `bits` alone
unfoldable pub bits_to_target : ℕ → ℕ
bits_to_target bits =
    let exponent = bits / 2 ^ 24 in
    let coeff = bit_and bits bits_coeff_mask in
    if leb exponent 3 then coeff / 2 ^ (8 * (3 - exponent)) else coeff * 2 ^ (8 * (exponent - 3))

-- `if len(rawBytes) > 0 && rawBytes[0] > BITS_HIGH_BIT_MASK`
unfoldable pub unsigned_bytes : List ℕ → List ℕ
unsigned_bytes [] = []
unsigned_bytes (b ∷ bs) = if ltb bits_high_bit_mask b then 0x00 ∷ b ∷ bs else b ∷ bs

-- The first three bytes, in the places they are or-ed into
unfoldable pub coefficient : List ℕ → ℕ
coefficient [] = 0
coefficient (b0 ∷ []) = bit_or 0 (b0 * 2 ^ 16)
coefficient (b0 ∷ b1 ∷ []) = bit_or (bit_or 0 (b0 * 2 ^ 16)) (b1 * 2 ^ 8)
coefficient (b0 ∷ b1 ∷ b2 ∷ bs) = bit_or (bit_or (bit_or 0 (b0 * 2 ^ 16)) (b1 * 2 ^ 8)) b2

unfoldable pub target_to_bits : ℕ → ℕ
unfolding unsigned_bytes coefficient
target_to_bits target =
    let raw_bytes = unsigned_bytes (to_bytes target) in
    bit_or (length raw_bytes % 2 ^ 32 * 2 ^ 24 % 2 ^ 32) (coefficient raw_bytes)

-- The hash is reversed and read big-endian.
unfoldable pub check_proof_of_work : Hashes → Block → Bool
unfolding bits_to_target
check_proof_of_work h b =
    ltb (set_bytes (reverse (hash256 h (serialize b)))) (bits_to_target b.bits)

-- `timeDiff`, from a difference of uint32 numbers, after its two guards
unfoldable pub clamped_time : ℕ → ℕ → ℕ
clamped_time first last =
    let time_diff = (last + 2 ^ 32 - first) % 2 ^ 32 in
    let below = if ltb eight_weeks time_diff then eight_weeks else time_diff in
    if ltb below three_half_days then three_half_days else below

unfoldable pub calc_new_bits : Block → Block → ℕ
unfolding clamped_time bits_to_target target_to_bits
calc_new_bits first_block last_block =
    let time_diff = clamped_time first_block.time_stamp last_block.time_stamp in
    let new_target = bits_to_target last_block.bits * time_diff / two_weeks in
    if ltb (bits_to_target lowest_bits) new_target then lowest_bits else target_to_bits new_target
