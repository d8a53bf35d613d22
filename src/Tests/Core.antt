-- ===== src/Tests/Core.antt =====
-- The theorems on the processor at the small machine.
use projet_s.Word.{add32}
use projet_s.Common.{if◌then◌else◌, ◌≡◌, ◌%◌, ◌^◌, ◌/◌, true, refl, arith}
use projet_s.Constants.{pc, data_abort, lr}
use projet_s.Outcome.{ok}
use projet_s.Memory.Words.{word_at}
use projet_s.Registers
use projet_s.Registers.{Registers, register_index}
use projet_s.Arm
use projet_s.Arm.{ArmCore, fetch, read_register, read_cpsr}
use projet_s.Arm.Pc.{fetched}
use projet_s.Exception.{link_offset, arm_exception, entry_status}
use projet_s.Exception.Entry.{Entered, arm_exception-Entered, arm_exception_banks}
use projet_s.Branch.Target.{Branched}
use projet_s.Instruction.{arm_step, passes, condition_passed}
use projet_s.Instruction.Steps.{current, arm_step-branch, arm_step-swi, arm_step-abort}
use projet_s.DataProcessing.{is_test, arm_data_processing}
use projet_s.DataProcessing.Destination.{Computed, arm_data_processing-Computed}
use projet_s.Tests.Machine.{
  small_machine, small_machine-IsValid, x86, memory-IsBytes, file-usr, machine, machine-IsReady,
}

branch_at : current (machine 0) / 2 ^ 25 % 8 ≡ 5
unfolding word_at
branch_at = refl

passes_at : passes (read_cpsr (machine 0)) (current (machine 0)) ≡ true
unfolding passes read_cpsr word_at condition_passed
passes_at = refl

arm_step-branch_example :
    (p' : ArmCore) × (arm_step x86 (machine 0) ≡ ok (0, p'))
    × Branched (fetched (machine 0)) 0 (current (machine 0)) p'
arm_step-branch_example =
    arm_step-branch x86 (machine 0) (machine-IsReady 0 refl (omega arith)) passes_at branch_at

passes_swi : passes (read_cpsr (machine 4)) (current (machine 4)) ≡ true
unfolding passes read_cpsr word_at condition_passed
passes_swi = refl

arm_step-swi_example : arm_step x86 (machine 4) ≡ ok (0, fetched (machine 4))
unfolding word_at
arm_step-swi_example =
    arm_step-swi x86 (machine 4) (machine-IsReady 4 refl (omega arith)) passes_swi refl refl
      (omega arith)

arm_step-abort_example :
    arm_step x86 (machine 16) ≡ ok (data_abort, arm_exception (fetched (machine 16)) data_abort)
arm_step-abort_example =
    arm_step-abort x86 (machine 16) refl (omega arith) (omega arith) memory-IsBytes

arm_exception-Entered_example :
    Entered (machine 0) data_abort (arm_exception (machine 0) data_abort)
arm_exception-Entered_example =
    arm_exception-Entered (machine 0) data_abort (file-usr 0) (ground arith)

-- The registers after a change back to the status before the exception.
abbrev interrupted : Registers
interrupted =
    Registers.write_cpsr (arm_exception (machine 0) data_abort).reg (read_cpsr (machine 0))

arm_exception_banks_example :
    (read_register (arm_exception (machine 0) data_abort) lr ≡ 20)
    × (Arm.read_spsr (arm_exception (machine 0) data_abort) ≡ 33)
    × (Registers.read_register interrupted lr
        ≡ add32 (read_register (machine 0) pc) (link_offset data_abort))
    × (Registers.read_spsr interrupted
        ≡ (if Arm.current_mode_has_spsr (machine 0) then read_cpsr (machine 0) else 0))
unfolding Registers.get_mode Registers.register_index Registers.mode_offset Registers.read_spsr
    Registers.write_cpsr entry_status read_cpsr
arm_exception_banks_example = arm_exception_banks (machine 0) data_abort (file-usr 0) (ground arith)

-- ADDS r1, sp, #5.
arm_data_processing-Computed_example :
    (p' : ArmCore) × (arm_data_processing x86 small_machine 0xE29D1005 ≡ (0, p'))
    × Computed x86 small_machine small_machine-IsValid 0xE29D1005 p'
unfolding is_test
arm_data_processing-Computed_example =
    arm_data_processing-Computed x86 small_machine small_machine-IsValid 0xE29D1005 refl
      (omega arith)
