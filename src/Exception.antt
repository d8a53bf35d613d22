-- ===== src/Exception.antt =====
-- arm_exception.c, and `arm_create` of arm_core.c, which resets the processor.
pub mod Valid
pub mod Status
pub mod Entry
pub mod Return
use projet_s.Common.{ℕ, ◌+◌, ◌*◌, bit_and, bit_or, ◌==◌, if◌then◌else◌}
use projet_s.Constants.{
  sp, lr, pc, reset, undefined_instruction, software_interrupt, prefetch_abort, data_abort,
  interrupt, fast_interrupt,
}
use projet_s.Word.{u32, add32, sub32}
use projet_s.Memory.{Memory}
use projet_s.Registers.{Registers}
use projet_s.Arm
use projet_s.Arm.{ArmCore}

-- CP15_reg1_EEbit << 9.
abbrev pub exception_bit_9 : ℕ
exception_bit_9 = 0

-- The status word that the handler starts with.
unfoldable pub entry_status : ℕ → ℕ → ℕ
entry_status exception cpsr =
    if exception == undefined_instruction
    then bit_or (bit_and cpsr 0x140) 0x9b
    else if exception == software_interrupt
    then bit_or (bit_and cpsr 0x140) 0x93
    else if exception == prefetch_abort
    then bit_or (bit_and cpsr 0x40) 0x197
    else if exception == data_abort
    then bit_or (bit_and cpsr 0x40) 0x197
    else if exception == interrupt
    then bit_or (bit_and cpsr 0x40) 0x192
    else if exception == fast_interrupt
    then 0x1d1
    else cpsr

-- `d`, added to the program counter for the link register.
unfoldable pub link_offset : ℕ → ℕ
link_offset exception =
    if exception == data_abort
    then 8
    else if exception == interrupt
    then 8
    else if exception == fast_interrupt
    then 8
    else 4

-- `exception` is an `unsigned char`, and exception - 1 an `int`.
unfoldable pub arm_exception : ArmCore → ℕ → ArmCore
arm_exception p exception =
    let p =
      if exception == reset
      then (let p = Arm.write_cpsr p (bit_or 0xd3 exception_bit_9) in Arm.write_register p sp 0x800)
      else (let cpsr = Arm.read_cpsr p in
          let p = Arm.write_spsr p cpsr in
          let p =
            Arm.write_register p lr (add32 (Arm.read_register p pc) (link_offset exception)) in
          Arm.write_cpsr p (entry_status exception cpsr)) in
    Arm.write_usr_register p pc (u32 (sub32 exception 1 * 4))

-- `registers` is what `malloc` finds; the count of cycles is set after the reset.
unfoldable pub arm_create : Registers → Memory → ArmCore
unfolding arm_exception
arm_create registers mem =
    let p = arm_exception (record { cycle_count = 0; reg = registers; mem = mem }) reset in
    record p { cycle_count = 0 }
