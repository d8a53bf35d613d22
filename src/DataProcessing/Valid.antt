-- ===== src/DataProcessing/Valid.antt =====
-- A data processing instruction keeps the well-formed states.
use projet_s.Common.{ℕ, ◌*◌, ◌^◌, ◌<◌, ◌==◌, ◌&&◌, not, arith, nonzero, bit_and, if◌then◌else◌}
use projet_s.Constants.{flag_c, pc}
use projet_s.Bits.{bit_or-lt, bit_and-le, bit_xor-lt, bit_and-mask}
use projet_s.Word.{Host, not32, masked, shr}
use projet_s.Util.{get_bit}
use projet_s.Util.Change.{change_bit-lt}
use projet_s.Util.Rotate.{ror-lt}
use projet_s.Arm
use projet_s.Arm.{ArmCore}
use projet_s.Arm.Valid.{
  IsValid, IsValid-if, read_register-lt, read_cpsr-lt, read_spsr-lt, write_register-IsValid,
  write_cpsr-IsValid,
}
use projet_s.Branch.{arm_miscellaneous}
use projet_s.Branch.Valid.{arm_miscellaneous-IsValid}
use projet_s.Shifter.Valid.{shifter_operand-lt}
use projet_s.DataProcessing.{
  operation, status, operand, set_flags, carried, is_test, arm_data_processing,
}

operation-lt :
    (opcode rn shifter carry other : ℕ)
    → rn < 2 ^ 32
    → shifter < 2 ^ 32
    → other < 2 ^ 32
    → operation opcode rn shifter carry other < 2 ^ 32
unfolding operation
operation-lt opcode rn shifter carry other h k l = ground (
  arith,
  bit_and-le 32 rn shifter h,
  bit_and-le 32 rn (not32 shifter) h,
  bit_xor-lt 32 rn shifter h k,
  bit_or-lt 32 rn shifter h k,
)

module _ (host : Host) where
  pub status-lt :
      (opcode cpsr rn shifter res out : ℕ)
      → cpsr < 2 ^ 32
      → status host opcode cpsr rn shifter res out < 2 ^ 32
  unfolding status
  status-lt opcode cpsr rn shifter res out h = grind (arith, change_bit-lt host)

  pub operand-lt :
      {size : ℕ} {p : ArmCore} (ins : ℕ) → IsValid size p → (operand host p ins).0 < 2 ^ 32
  unfolding operand
  operand-lt ins valid = ground (
    arith,
    shifter_operand-lt host ins valid,
    ror-lt host (bit_and ins 0xFF) (bit_and (shr host ins 8) 0xF * 2)
        (omega (arith, bit_and-mask 8 ins)),
  )

  set_flags-IsValid :
      {size : ℕ} {p : ArmCore} (opcode rd rn shifter res out : ℕ)
      → IsValid size p
      → IsValid size (set_flags host p opcode rd rn shifter res out)
  unfolding set_flags
  set_flags-IsValid {p} opcode rd rn shifter res out valid =
      IsValid-if (rd == pc && Arm.current_mode_has_spsr p)
        (write_cpsr-IsValid valid _ (read_spsr-lt valid))
        (write_cpsr-IsValid valid _ (
          status-lt opcode (Arm.read_cpsr p) rn
            (carried host opcode shifter (get_bit host (Arm.read_cpsr p) flag_c)) res out
            (read_cpsr-lt valid)))

  module _ {size : ℕ} {p : ArmCore} (valid : IsValid size p) where
    pub arm_data_processing-IsValid :
        (ins : ℕ) → host.indeterminate < 2 ^ 32 → IsValid size (arm_data_processing host p ins).1
    unfolding arm_data_processing
    arm_data_processing-IsValid ins h =
        IsValid-if (nonzero (masked ins 0b1 20)) (set_flags-IsValid _ _ _ _ _ _ written) written
      where
        rn : ℕ
        rn = Arm.read_register p (masked ins 0b1111 16)

        res-lt :
            operation
              (masked ins 0b1111 21)
              rn
              (operand host p ins).0
              (get_bit host (Arm.read_cpsr p) flag_c)
              host.indeterminate
            < 2 ^ 32
        res-lt =
            operation-lt (masked ins 0b1111 21) rn (operand host p ins).0
              (get_bit host (Arm.read_cpsr p) flag_c) host.indeterminate
              (read_register-lt valid (masked ins 0b1111 16)) (operand-lt ins valid) h

        moved : IsValid size (
            if is_test (masked ins 0b1111 21) && not (nonzero (get_bit host ins 20))
            then (arm_miscellaneous host p ins).1
            else p)
        moved = IsValid-if _ (arm_miscellaneous-IsValid host valid ins) valid

        written : IsValid size (
            if not (masked ins 0b11 23 == 0b10)
            then Arm.write_register
                (if is_test (masked ins 0b1111 21) && not (nonzero (get_bit host ins 20))
                  then (arm_miscellaneous host p ins).1
                  else p)
                (masked ins 0b1111 12)
                (operation
                  (masked ins 0b1111 21)
                  rn
                  (operand host p ins).0
                  (get_bit host (Arm.read_cpsr p) flag_c)
                  host.indeterminate)
            else if is_test (masked ins 0b1111 21) && not (nonzero (get_bit host ins 20))
            then (arm_miscellaneous host p ins).1
            else p)
        written = IsValid-if _ (write_register-IsValid moved _ _ res-lt) moved
