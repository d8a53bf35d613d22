-- ===== src/DataProcessing/Test.antt =====
-- CMP as a whole instruction: the status word that it leaves, and nothing else.
use projet_s.Common.{ℕ, ◌/◌, ◌%◌, ◌^◌, ◌≡◌, ◌≢◌, refl, arith, ◌==◌, false}
use projet_s.Constants.Opcode
use projet_s.Word.{Host, sub32}
use projet_s.Word.Masks.{masked-eq-mod}
use projet_s.Util.Fields.{get_bit-eq-mod}
use projet_s.Arm
use projet_s.Arm.{ArmCore}
use projet_s.DataProcessing.{
  operation, operand, set_flags, is_test, arm_data_processing, status, carried,
}

-- The fields of a comparison: the number of the operation, and the status bit; and not the program
-- counter in the place of the destination.
pub record IsCompare (ins : ℕ) : Type 0 where
  pub opcode : ins / 2 ^ 21 % 2 ^ 4 ≡ Opcode.cmp
  pub sets : ins / 2 ^ 20 % 2 ≡ 1
  pub other_rd : ins / 2 ^ 12 % 2 ^ 4 ≢ 15

-- The first operand.
abbrev pub compared_to : ArmCore → ℕ → ℕ
compared_to p ins = Arm.read_register p (ins / 2 ^ 16 % 2 ^ 4)

-- The status word after the comparison of the two operands.
abbrev pub after_compare : Host → ArmCore → ℕ → ℕ
after_compare host p ins =
    let (shifter, carry_out) = operand host p ins in
    let rn = compared_to p ins in
    status host Opcode.cmp (Arm.read_cpsr p) rn shifter (sub32 rn shifter) carry_out

pub arm_data_processing-compare :
    (host : Host) (p : ArmCore) (ins : ℕ)
    → IsCompare ins
    → arm_data_processing host p ins ≡ (0, Arm.write_cpsr p (after_compare host p ins))
unfolding arm_data_processing set_flags operation carried is_test
arm_data_processing-compare host p ins compare =
    rw
      (
        masked-eq-mod 4 21 ins,
        masked-eq-mod 4 16 ins,
        masked-eq-mod 4 12 ins,
        masked-eq-mod 1 20 ins,
        masked-eq-mod 2 23 ins,
        compare.opcode,
        get_bit-eq-mod host ins 20 (omega arith),
        compare.sets,
        no_write,
        not_pc,
      )
      refl
  where
    no_write : ins / 2 ^ 23 % 2 ^ 2 ≡ 0b10
    no_write = omega (arith, compare.opcode)

    not_pc : (ins / 2 ^ 12 % 2 ^ 4 == 15) ≡ false
    not_pc = ground (arith, compare.other_rd)
