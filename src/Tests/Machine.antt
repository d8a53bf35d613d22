-- ===== src/Tests/Machine.antt =====
-- A host of the x86 family, and a small machine with a program of four instructions.
use projet_s.Common.{ℕ, ◌*◌, ◌/◌, ◌%◌, ◌^◌, ◌<◌, ◌≡◌, ◌==◌, true, false, refl, arith, if◌then◌else◌}
use projet_s.Constants.{pc, cpsr, usr}
use projet_s.Word.{Host, MasksCounts}
use projet_s.Memory.{Memory}
use projet_s.Memory.Words.{IsBytes}
use projet_s.Registers.{Registers, get_mode}
use projet_s.Registers.Bank.{IsMode}
use projet_s.Arm.{ArmCore}
use projet_s.Arm.Valid.{IsWords, IsValid}
use projet_s.Instruction.Steps.{IsReady}

abbrev pub x86 : Host
x86 = record {
  shl_over = λ v n. v * 2 ^ (n % 32);
  shr_over = λ v n. v / 2 ^ (n % 32);
  big_endian = false;
  indeterminate = 0;
  big_endian_simulator = true;
}

pub x86-MasksCounts : MasksCounts x86
x86-MasksCounts = record { shl_masked = λ v n h. refl; shr_masked = λ v n h. refl }

-- B to 16, SWI 1, a coprocessor access, and a branch on equality, each with its low byte first.
abbrev program : ℕ → ℕ
program i =
    if i == 0
    then 0x02
    else if i == 3
    then 0xEA
    else if i == 4
    then 0x01
    else if i == 7
    then 0xEF
    else if i == 11
    then 0xEC
    else if i == 15
    then 0x0A
    else 0

abbrev pub memory : Memory
memory = record { m = program; size = 16; is_big_endian = false }

pub memory-IsBytes : IsBytes memory
memory-IsBytes i = ground arith

-- Each word holds its index, but for the status word and the program counter.
abbrev pub file : ℕ → ℕ → Registers
file status address i = if i == cpsr then status else if i == pc then address else i

pub file-usr : (address : ℕ) → IsMode (get_mode (file usr address))
unfolding get_mode
file-usr address = ground arith

abbrev pub machine : ℕ → ArmCore
machine address = record { cycle_count = 0; reg = file usr address; mem = memory }

pub machine-IsReady : (address : ℕ) → address % 4 ≡ 0 → address < 16 → IsReady (machine address)
machine-IsReady address aligned inside = record {
  aligned = aligned;
  inside = omega arith;
  size_fits = omega arith;
  bytes = memory-IsBytes;
}

-- Registers that are words: the stack pointer is at the end of the memory.
abbrev pub small_file : Registers
small_file i = if i == 13 then 16 else if i == cpsr then usr else 0

abbrev pub small_machine : ArmCore
small_machine = record { cycle_count = 0; reg = small_file; mem = memory }

pub small_file-IsWords : IsWords small_file
small_file-IsWords i = ground arith

pub small_machine-IsValid : IsValid 16 small_machine
small_machine-IsValid = record {
  words = small_file-IsWords;
  bytes = memory-IsBytes;
  same_size = refl;
}
