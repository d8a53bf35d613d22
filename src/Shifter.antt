-- ===== src/Shifter.antt =====
-- `shifter_operand` of arm_instruction.c: addressing mode 1.
pub mod Valid
pub mod Operand
use projet_s.Common.{
  ℕ, ◌+◌, ◌*◌, ◌/◌, ◌^◌, ◌==◌, ◌&&◌, Bool, if◌then◌else◌, bit_and, bit_or, nonzero,
}
use projet_s.Constants.{flag_c}
use projet_s.Constants.ShiftType
use projet_s.Word.{Host, u8, sub32, masked, shl, shr}
use projet_s.Util.{get_bit, asr, ror}
use projet_s.Arm
use projet_s.Arm.{ArmCore}

module _ (host : Host) where
  -- The amount of the shift: a register, or a field of the instruction.
  unfoldable pub shift_amount : ArmCore → ℕ → ℕ
  shift_amount p ins =
      let shift =
        if nonzero (masked ins 0b1 4)
        then Arm.read_register p (masked ins 0b1111 8)
        else masked ins 0b11111 7 in
      if shift == 0 && nonzero (get_bit host ins 6) && nonzero (get_bit host ins 4)
      then 32
      else shift

  -- The operand and the carry out, for the kind of shift and its amount. `carry` is the flag C.
  unfoldable pub shift_value : ℕ → ℕ → ℕ → ℕ → ℕ × ℕ
  shift_value kind rm shift carry =
      if kind == ShiftType.lsl
      then (shl host rm shift, if nonzero shift then get_bit host rm (sub32 32 shift) else carry)
      else if kind == ShiftType.lsr
      then (shr host rm shift, if nonzero shift then get_bit host rm (sub32 shift 1) else carry)
      else if kind == ShiftType.asr
      then (asr host rm (u8 (sub32 shift 1)), get_bit host rm (sub32 shift 1))
      else if kind == ShiftType.ror
      then (if nonzero shift
          then (ror host rm (u8 shift), get_bit host rm (sub32 shift 1))
          else (bit_or (shr host rm 1) (shl host carry 31), bit_and rm 1))
      else (0, carry)

  unfoldable pub shifter_operand : ArmCore → ℕ → ℕ × ℕ
  unfolding shift_amount shift_value
  shifter_operand p ins =
      shift_value (masked ins 0b11 5) (Arm.read_register p (masked ins 0b1111 0))
        (shift_amount p ins) (get_bit host (Arm.read_cpsr p) flag_c)
