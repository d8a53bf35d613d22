-- ===== src/Constants.antt =====
-- arm_constants.h: the numbers of the modes, registers, exceptions and flags.
pub mod Names
pub mod Opcode
pub mod Condition
pub mod InstructionType
pub mod ShiftType
use projet_s.Common.{ℕ}

-- Registers.
abbrev pub sp : ℕ
sp = 13

abbrev pub lr : ℕ
lr = 14

abbrev pub pc : ℕ
pc = 15

abbrev pub cpsr : ℕ
cpsr = 16

-- Modes.
abbrev pub usr : ℕ
usr = 0x10

abbrev pub fiq : ℕ
fiq = 0x11

abbrev pub irq : ℕ
irq = 0x12

abbrev pub svc : ℕ
svc = 0x13

abbrev pub abt : ℕ
abt = 0x17

abbrev pub und : ℕ
und = 0x1b

abbrev pub sys : ℕ
sys = 0x1f

-- Exceptions.
abbrev pub reset : ℕ
reset = 1

abbrev pub undefined_instruction : ℕ
undefined_instruction = 2

abbrev pub software_interrupt : ℕ
software_interrupt = 3

abbrev pub prefetch_abort : ℕ
prefetch_abort = 4

abbrev pub data_abort : ℕ
data_abort = 5

abbrev pub interrupt : ℕ
interrupt = 7

abbrev pub fast_interrupt : ℕ
fast_interrupt = 8

-- Flags of the CPSR, by the place of their bit.
abbrev pub flag_n : ℕ
flag_n = 31

abbrev pub flag_z : ℕ
flag_z = 30

abbrev pub flag_c : ℕ
flag_c = 29

abbrev pub flag_v : ℕ
flag_v = 28
