-- ===== src/Branch.antt =====
-- arm_branch_other.c: branches, software interrupts and status register moves.
pub mod Valid
pub mod Target
use projet_s.Common.{
  ℕ, ◌+◌, ◌*◌, ◌/◌, ◌^◌, ◌==◌, ◌&&◌, Bool, not, if◌then◌else◌, bit_and, bit_or, nonzero,
}
use projet_s.Constants.{undefined_instruction, software_interrupt}
use projet_s.Outcome.{Outcome, ok, exited}
use projet_s.Word.{Host, add32, sub32, shl}
use projet_s.Util.{get_bit, get_bits}
use projet_s.Arm
use projet_s.Arm.{ArmCore}

-- The `int32_t` result as its 32-bit pattern.
unfoldable pub sign_extending : ℕ → ℕ
sign_extending x = if nonzero (bit_and x (2 ^ 23)) then bit_or x 0x3F000000 else x

module _ (host : Host) where
  unfoldable pub arm_branch : ArmCore → ℕ → ℕ × ArmCore
  unfolding sign_extending
  arm_branch p ins =
      let p =
        if nonzero (bit_and ins (2 ^ 24))
        then Arm.write_register p 14 (sub32 (Arm.read_register p 15) 4)
        else p in
      (
        0,
        Arm.write_register p 15
            (add32 (Arm.read_register p 15) (shl host (sign_extending (bit_and ins 0xFFFFFF)) 2)),
      )

  unfoldable pub arm_coprocessor_others_swi : ArmCore → ℕ → Outcome (ℕ × ArmCore)
  arm_coprocessor_others_swi p ins =
      if nonzero (get_bit host ins 24)
      then (if bit_and ins 0xFFFFFF == 0x123456 then exited 0 else ok (software_interrupt, p))
      else ok (undefined_instruction, p)

  unfoldable pub arm_miscellaneous : ArmCore → ℕ → ℕ × ArmCore
  arm_miscellaneous p ins =
      if nonzero (get_bit host ins 21)
      then (0, p)
      else if nonzero (get_bit host ins 22)
      then (if not (Arm.current_mode_has_spsr p)
          then (undefined_instruction, p)
          else (0, Arm.write_register p (get_bits host ins 15 12) (Arm.read_spsr p)))
      else (0, Arm.write_register p (get_bits host ins 15 12) (Arm.read_cpsr p))
