-- ===== src/Script/Engine/Timelocks.antt =====
-- OP_CHECKLOCKTIMEVERIFY and OP_CHECKSEQUENCEVERIFY against the conditions of BIP 65 and BIP 112.
use go_bitcoin.Base.{ℕ, ◌*◌, ◌/◌, ◌%◌, ◌^◌, ◌<◌, ◌≤◌, List, ◌∷◌}
use go_bitcoin.Base.{ok, ◌≡◌, ◌≢◌, ◌↔◌, ◌⊎◌, arith}
use go_bitcoin.Base.{bit_and}
use go_bitcoin.Base.Bits.{bit_and_mask, bit_and_bit}
use go_bitcoin.Script.Command.{ScriptCommand}
use go_bitcoin.Script.Num.{decode_num}
use go_bitcoin.Script.Engine.{ScriptEngine}
use go_bitcoin.Script.Engine.Locktime.{op_check_locktime_verify}
use go_bitcoin.Script.Engine.Locktime.{op_check_sequence_verify}

-- BIP 65: the wanted locktime is not negative, the input is not final, both locktimes are heights
-- or both are times, and the transaction's is not earlier.
abbrev pub LocktimeReached : ℕ → ℕ → ℕ → Type 0
LocktimeReached locktime sequence n =
    (n < 2 ^ 63)
    × (sequence ≢ 0xffffffff)
    × (((n < 500000000) × (locktime < 500000000)) ⊎ ((500000000 ≤ n) × (500000000 ≤ locktime)))
    × (n ≤ locktime)

-- BIP 112, but for the transaction's version, which the engine is not given: the wanted sequence is
-- not negative; and either its bit 31 is set, or bit 31 of the input's sequence is not, bit 22 is
-- the same in both, and the low 16 bits of the input's are not smaller.
abbrev pub SequenceReached : ℕ → ℕ → Type 0
SequenceReached sequence n =
    (n < 2 ^ 63)
    × ((n / 2 ^ 31 % 2 ≡ 1)
        ⊎ ((sequence / 2 ^ 31 % 2 ≡ 0)
            × (sequence / 2 ^ 22 % 2 ≡ n / 2 ^ 22 % 2)
            × (n % 2 ^ 16 ≤ sequence % 2 ^ 16)))

disable_bit : (w : ℕ) → bit_and w (2 ^ 31) ≡ w / 2 ^ 31 % 2 * 2 ^ 31
disable_bit = bit_and_bit 31

type_bit : (w : ℕ) → bit_and w (2 ^ 22) ≡ w / 2 ^ 22 % 2 * 2 ^ 22
type_bit = bit_and_bit 22

low_half : (w : ℕ) → bit_and w 0x0000ffff ≡ w % 2 ^ 16
low_half = bit_and_mask 16

module _ (se : ScriptEngine) (element : ScriptCommand) (below : List ScriptCommand) where
  abbrev on_top : ScriptEngine
  on_top = record se { stack = element ∷ below }

  -- With an element on the stack, OP_CHECKLOCKTIMEVERIFY succeeds exactly under the conditions of
  -- BIP 65 on the number that the element stands for, and then leaves the engine as it is.
  pub op_check_locktime_verify_iff :
      (se' : ScriptEngine)
      → (op_check_locktime_verify on_top ≡ ok se')
        ↔ ((se' ≡ on_top) × LocktimeReached se.locktime se.sequence (decode_num element.bytes))
  unfolding op_check_locktime_verify
  op_check_locktime_verify_iff se' = (λ h. ground arith, λ h. ground arith)

  -- With an element on the stack, OP_CHECKSEQUENCEVERIFY succeeds exactly under SequenceReached on
  -- the number that the element stands for, and then leaves the engine as it is.
  pub op_check_sequence_verify_iff :
      (se' : ScriptEngine)
      → (op_check_sequence_verify on_top ≡ ok se')
        ↔ ((se' ≡ on_top) × SequenceReached se.sequence (decode_num element.bytes))
  unfolding op_check_sequence_verify
  op_check_sequence_verify_iff se' =
      let n = decode_num element.bytes in
      (
        λ h. ground (
          arith,
          disable_bit (n % 2 ^ 32),
          disable_bit se.sequence,
          type_bit (n % 2 ^ 32),
          type_bit se.sequence,
          low_half (n % 2 ^ 32),
          low_half se.sequence,
        ),
        λ h. ground (
          arith,
          disable_bit (n % 2 ^ 32),
          disable_bit se.sequence,
          type_bit (n % 2 ^ 32),
          type_bit se.sequence,
          low_half (n % 2 ^ 32),
          low_half se.sequence,
        ),
      )
