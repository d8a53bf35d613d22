-- ===== src/Shifter/Valid.antt =====
-- The shifter's operand is a word.
use projet_s.Common.{ℕ, ◌^◌, ◌<◌, arith}
use projet_s.Constants.{flag_c}
use projet_s.Bits.{bit_or-lt}
use projet_s.Word.{Host, u8, sub32, shl, shr, masked}
use projet_s.Word.Shift.{shl-lt, shr-lt}
use projet_s.Util.{get_bit}
use projet_s.Util.Rotate.{asr-lt, ror-lt}
use projet_s.Arm
use projet_s.Arm.{ArmCore}
use projet_s.Arm.Valid.{IsValid, read_register-lt}
use projet_s.Shifter.{shift_value, shifter_operand, shift_amount}

module _ (host : Host) where
  shift_value-lt :
      (k rm shift carry : ℕ) → rm < 2 ^ 32 → (shift_value host k rm shift carry).0 < 2 ^ 32
  unfolding shift_value
  shift_value-lt k rm shift carry h = ground (
    arith,
    shl-lt host rm shift,
    shr-lt host rm shift h,
    asr-lt host rm (u8 (sub32 shift 1)) h,
    ror-lt host rm (u8 shift) h,
    bit_or-lt 32 (shr host rm 1) (shl host carry 31) (shr-lt host rm 1 h) (shl-lt host carry 31),
  )

  pub shifter_operand-lt :
      {size : ℕ} {p : ArmCore} (ins : ℕ) → IsValid size p → (shifter_operand host p ins).0 < 2 ^ 32
  unfolding shifter_operand
  shifter_operand-lt {p} ins valid =
      shift_value-lt (masked ins 0b11 5) (Arm.read_register p (masked ins 0b1111 0))
        (shift_amount host p ins) (get_bit host (Arm.read_cpsr p) flag_c) (read_register-lt valid _)
