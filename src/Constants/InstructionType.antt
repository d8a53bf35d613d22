-- ===== src/Constants/InstructionType.antt =====
-- arm_constants.h: the types of instructions.
use projet_s.Common.{ℕ}

abbrev pub data_processing_shift : ℕ
data_processing_shift = 0b0

abbrev pub data_processing_immediate : ℕ
data_processing_immediate = 0b1

abbrev pub load_store_immediate : ℕ
load_store_immediate = 0b10

abbrev pub load_store_register : ℕ
load_store_register = 0b11

abbrev pub load_store_multiple : ℕ
load_store_multiple = 0b100

abbrev pub branch : ℕ
branch = 0b101

abbrev pub load_store_coproc : ℕ
load_store_coproc = 0b110

abbrev pub coprocessor_others_swi : ℕ
coprocessor_others_swi = 0b111
