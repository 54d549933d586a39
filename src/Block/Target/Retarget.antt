-- ===== src/Block/Target/Retarget.antt =====
-- The difficulty adjustment, CalcNewBits of internal/block/block.go.
use go_bitcoin.Base.{ℕ, ◌+◌, ◌-◌, ◌*◌, ◌/◌, ◌%◌, ◌^◌, ◌≤◌, ◌<◌, arith, ◌≡◌}
use go_bitcoin.Block.Header.{Block}
use go_bitcoin.Block.Target.{lowest_bits, two_weeks, eight_weeks, three_half_days, bits_to_target}
use go_bitcoin.Block.Target.{clamped_time, calc_new_bits}
use go_bitcoin.Block.Target.Compact.{target_to_bits-bits_to_target, not_lt→ltb}

two_weeks_pass : (a b : ℕ) → b < 2 ^ 32 → b ≡ a + two_weeks → clamped_time a b ≡ two_weeks
unfolding clamped_time
two_weeks_pass a b h e = ground arith

-- A period that took two weeks by its time stamps keeps the bits of its last block, where they are
-- in canonical form and stand for a target that is no easier than the lowest difficulty allows.
pub calc_new_bits-two_weeks :
    (first_block last_block : Block)
    → last_block.time_stamp < 2 ^ 32
    → last_block.time_stamp ≡ first_block.time_stamp + two_weeks
    → last_block.bits < 2 ^ 32
    → 3 ≤ last_block.bits / 2 ^ 24
    → 2 ^ 15 ≤ last_block.bits % 2 ^ 24
    → last_block.bits % 2 ^ 24 < 2 ^ 23
    → bits_to_target last_block.bits ≤ bits_to_target lowest_bits
    → calc_new_bits first_block last_block ≡ last_block.bits
unfolding calc_new_bits
calc_new_bits-two_weeks first_block last_block fits later bits_fit e lo hi below =
    let t = bits_to_target last_block.bits in
    let time : clamped_time first_block.time_stamp last_block.time_stamp ≡ two_weeks =
      two_weeks_pass _ _ fits later in
    let same : t * two_weeks / two_weeks ≡ t = omega arith in
    rw (time, same, not_lt→ltb (bits_to_target lowest_bits) t below)
      (target_to_bits-bits_to_target last_block.bits bits_fit e lo hi)

-- The period that CalcNewBits scales the target with is between three and a half days and eight weeks,
-- for any two time stamps.
clamped_time-bounds :
    (first last : ℕ)
    → (three_half_days ≤ clamped_time first last) × (clamped_time first last ≤ eight_weeks)
unfolding clamped_time
clamped_time-bounds first last = (ground arith, ground arith)

-- A last block stamped earlier than the first, by less than about 135 years, counts as a period of eight
-- weeks or more: the difference of the stamps wraps.
pub clamped_time-wraps :
    (first last : ℕ)
    → first < 2 ^ 32
    → last < first
    → first - last ≤ 2 ^ 32 - eight_weeks
    → clamped_time first last ≡ eight_weeks
unfolding clamped_time
clamped_time-wraps first last h k l = ground arith
