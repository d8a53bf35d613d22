-- ===== src/Branch/Valid.antt =====
-- Branches, software interrupts and status register moves keep the well-formed states.
use projet_s.Outcome.{Ensures, Ensures-if, Ensures-ok}
use projet_s.Word.{Host}
use projet_s.Util.{get_bit}
use projet_s.Arm
use projet_s.Common.{ℕ, ◌^◌, arith, ◌==◌, not, nonzero, bit_and, if_both}
use projet_s.Arm.{ArmCore}
use projet_s.Arm.Valid.{IsValid, IsValid-if, read_cpsr-lt, read_spsr-lt, write_register-IsValid}
use projet_s.Branch.{arm_branch, arm_coprocessor_others_swi, arm_miscellaneous}

module _ (host : Host) {size : ℕ} {p : ArmCore} (valid : IsValid size p) (ins : ℕ) where
  abbrev Valid : ℕ × ArmCore → Type 0
  Valid r = IsValid size r.1

  pub arm_branch-IsValid : IsValid size (arm_branch host p ins).1
  unfolding arm_branch
  arm_branch-IsValid =
      write_register-IsValid
        (IsValid-if (nonzero (bit_and ins (2 ^ 24)))
          (write_register-IsValid valid 14 _ (omega arith)) valid)
        15 _ (omega arith)

  pub arm_coprocessor_others_swi-IsValid :
      Ensures (arm_coprocessor_others_swi host p ins) (λ r. IsValid size r.1)
  unfolding arm_coprocessor_others_swi
  arm_coprocessor_others_swi-IsValid =
      Ensures-if (nonzero (get_bit host ins 24))
        (Ensures-if (bit_and ins 0xFFFFFF == 0x123456) (record { holds = tt }) (Ensures-ok valid))
        (Ensures-ok valid)

  pub arm_miscellaneous-IsValid : IsValid size (arm_miscellaneous host p ins).1
  unfolding arm_miscellaneous
  arm_miscellaneous-IsValid = if_both Valid (nonzero (get_bit host ins 21)) valid (
      if_both Valid (nonzero (get_bit host ins 22))
        (if_both Valid (not (Arm.current_mode_has_spsr p)) valid
          (write_register-IsValid valid _ _ (read_spsr-lt valid)))
        (write_register-IsValid valid _ _ (read_cpsr-lt valid)))
