-- ===== src/Tests/Programs.antt =====
-- The theorems on instructions that belong together, at small programs.
use projet_s.Constants.Opcode
use projet_s.DataProcessing.Plain.{IsPlain, rd, rn, rm}
use projet_s.DataProcessing.Long.{Added, arm_data_processing-Added}
use projet_s.Bits.{digit, digit-eq-mod}
use projet_s.Common.{
  ◌≢◌, ◌/◌, ℕ, ◌+◌, ◌%◌, ◌^◌, ◌<◌, ◌≡◌, inl, inr, refl, arith, ◌==◌, true, false, if◌then◌else◌,
}
use projet_s.Constants.{cpsr, usr, svc}
use projet_s.Constants.Condition
use projet_s.Outcome.{ok, ◌>>=◌}
use projet_s.Word.{shl, shr}
use projet_s.Util.{get_bit, get_bits, high_mask, ror}
use projet_s.Memory.{Memory}
use projet_s.Memory.Words.{IsBytes, word_at}
use projet_s.Registers
use projet_s.Registers.{Registers}
use projet_s.Arm
use projet_s.Arm.{ArmCore, read_cpsr}
use projet_s.Arm.Valid.{IsWords, IsValid}
use projet_s.Instruction.{passes, condition_passed}
use projet_s.Instruction.Steps.{IsReady, current}
use projet_s.Instruction.Compare.{IsData, immediate, Decided, arm_step-Decided}
use projet_s.DataProcessing.Test.{IsCompare, compared_to, after_compare}
use projet_s.Arm.Pc.{fetched}
use projet_s.Registers.Bank.{IsMode}
use projet_s.LoadStore.{arm_load_store, addressing_mode}
use projet_s.LoadStore.Single.{IsWordTransfer, Copied, target, arm_load_store-Copied}
use projet_s.Exception.{link_offset, arm_exception}
use projet_s.Exception.Return.{IsReturn, Resumed, arm_data_processing-Resumed}
use projet_s.DataProcessing.{arm_data_processing, operand}
use projet_s.Tests.Machine.{x86, small_machine, small_machine-IsValid}

-- CMP r1, #5 and BLT.
abbrev cells : ℕ → ℕ
cells i =
    if i == 0
    then 0x05
    else if i == 2
    then 0x51
    else if i == 3
    then 0xE3
    else if i == 4
    then 0x02
    else if i == 7
    then 0xBA
    else 0

abbrev comparing : Memory
comparing = record { m = cells; size = 16; is_big_endian = false }

abbrev registers : Registers
registers i = if i == 1 then 3 else if i == cpsr then usr else 0

abbrev loop : ArmCore
loop = record { cycle_count = 0; reg = registers; mem = comparing }

cells-IsBytes : IsBytes comparing
cells-IsBytes i = ground arith

registers-IsWords : IsWords registers
registers-IsWords i = ground arith

loop-IsValid : IsValid 16 loop
loop-IsValid = record { words = registers-IsWords; bytes = cells-IsBytes; same_size = refl }

loop-IsReady : IsReady loop
loop-IsReady = record {
  aligned = refl;
  inside = omega arith;
  size_fits = omega arith;
  bytes = cells-IsBytes;
}

loop-IsCompare : IsCompare (current loop)
unfolding word_at
loop-IsCompare = record { opcode = refl; sets = refl; other_rd = omega arith }

loop-passes : passes (read_cpsr loop) (current loop) ≡ true
unfolding passes read_cpsr word_at condition_passed
loop-passes = refl

loop-IsData : IsData (current loop)
unfolding word_at
loop-IsData = immediate refl

next_fits : 0 + 7 < 16
next_fits = omega arith

first_positive : 0 < compared_to (fetched loop) (current loop)
unfolding word_at Arm.read_register Arm.ahead Registers.read_register Registers.register_index
first_positive = omega arith

abbrev compared : ArmCore
compared = Arm.write_cpsr (fetched loop) (after_compare x86 (fetched loop) (current loop))

next_condition : current compared / 2 ^ 28 % 2 ^ 4 ≡ Condition.lt
unfolding word_at Arm.write_cpsr Registers.write_cpsr
next_condition = refl

next_branch : current compared / 2 ^ 25 % 8 ≡ 5
unfolding word_at Arm.write_cpsr Registers.write_cpsr
next_branch = refl

-- r1 holds 3, which is less than 5.
arm_step-Decided_example :
    (p' : ArmCore) × Decided x86 loop loop-IsValid loop-IsReady loop-IsData loop-IsCompare
      loop-passes next_fits Condition.lt p'
arm_step-Decided_example =
    arm_step-Decided x86 loop loop-IsValid loop-IsReady loop-IsData loop-IsCompare loop-passes
      next_fits Condition.lt (inr (inl refl)) first_positive next_condition next_branch

-- STR sp, [r0, #8] and LDR r2, [r0, #8].
stores-IsWordTransfer : IsWordTransfer 0xE580D008
stores-IsWordTransfer = record {
  before = refl;
  no_write_back = refl;
  whole = refl;
  not_half = refl;
}

loads-IsWordTransfer : IsWordTransfer 0xE5902008
loads-IsWordTransfer = record { before = refl; no_write_back = refl; whole = refl; not_half = refl }

store_target : target x86 small_machine 0xE580D008 ≡ 8
unfolding addressing_mode Arm.read_register Arm.ahead Registers.read_register
    Registers.register_index get_bit shr get_bits high_mask shl
store_target = refl

load_target : target x86 small_machine 0xE5902008 ≡ 8
unfolding addressing_mode Arm.read_register Arm.ahead Registers.read_register
    Registers.register_index get_bit shr get_bits high_mask shl
load_target = refl

arm_load_store-Copied_example :
    (p' : ArmCore) × ((arm_load_store x86 small_machine 0xE580D008 >>= λ r.
    arm_load_store x86 r.1 0xE5902008)
      ≡ ok (0, p'))
    × Copied x86 small_machine 8 0xE580D008 0xE5902008 p'
arm_load_store-Copied_example =
    arm_load_store-Copied x86 small_machine small_machine-IsValid 0xE580D008 0xE5902008
      stores-IsWordTransfer loads-IsWordTransfer 8 store_target load_target refl refl (omega arith)
      refl (omega arith)

-- A program that runs in supervisor mode.
abbrev supervisor_file : Registers
supervisor_file i = if i == cpsr then svc else 0

abbrev supervisor : ArmCore
supervisor = record { cycle_count = 0; reg = supervisor_file; mem = comparing }

supervisor_file-IsWords : IsWords supervisor_file
supervisor_file-IsWords i = ground arith

supervisor-IsValid : IsValid 16 supervisor
supervisor-IsValid = record {
  words = supervisor_file-IsWords;
  bytes = cells-IsBytes;
  same_size = refl;
}

supervisor_mode : Registers.get_mode supervisor_file ≡ svc
unfolding Registers.get_mode
supervisor_mode = refl

supervisor-IsMode : IsMode (Registers.get_mode supervisor_file)
supervisor-IsMode = rw supervisor_mode (inr (inr (inr (inl refl))))

-- SUBS pc, lr, #8.
back-IsReturn : IsReturn 0xE25EF008
back-IsReturn = record { opcode = refl; sets = refl; from_lr = refl; to_pc = refl }

eight : (operand x86 (arm_exception supervisor 3) 0xE25EF008).0 ≡ 8
unfolding operand ror shr shl
eight = refl

arm_data_processing-Resumed_example :
    (p' : ArmCore) × (arm_data_processing x86 (arm_exception supervisor 3) 0xE25EF008 ≡ (0, p'))
    × Resumed supervisor p'
unfolding link_offset
arm_data_processing-Resumed_example =
    arm_data_processing-Resumed x86 supervisor supervisor-IsValid 3 0xE25EF008 back-IsReturn
      (inr (inl refl)) supervisor-IsMode supervisor_mode refl eight

-- The low halves in r0 and r2, whose sum has a carry.
abbrev halves : Registers
halves i = if i == 0 then 0xFFFFFFFF else if i == 2 then 1 else if i == cpsr then usr else 0

abbrev adding : ArmCore
adding = record { cycle_count = 0; reg = halves; mem = comparing }

halves-IsWords : IsWords halves
halves-IsWords i = ground arith

adding-IsValid : IsValid 16 adding
adding-IsValid = record { words = halves-IsWords; bytes = cells-IsBytes; same_size = refl }

-- ADDS r4, r0, r2 and ADC r5, r1, r3.
adds-IsPlain : IsPlain Opcode.add 0xE0904002
adds-IsPlain = record {
  operation = refl;
  register = refl;
  unshifted = refl;
  other_rd = omega arith;
}

adc-IsPlain : IsPlain Opcode.adc 0xE0A15003
adc-IsPlain = record { operation = refl; register = refl; unshifted = refl; other_rd = omega arith }

clear_carry : digit (read_cpsr adding) 29 ≡ 0
unfolding read_cpsr Registers.read_cpsr
clear_carry = digit-eq-mod (read_cpsr adding) 29

one_is_not_four : rn 0xE0A15003 ≢ rd 0xE0904002
one_is_not_four = omega arith

three_is_not_four : rm 0xE0A15003 ≢ rd 0xE0904002
three_is_not_four = omega arith

five_is_not_four : rd 0xE0A15003 ≢ rd 0xE0904002
five_is_not_four = omega arith

arm_data_processing-Added_example :
    (p' : ArmCore) × (arm_data_processing x86
        (arm_data_processing x86 adding 0xE0904002).1
        0xE0A15003
      ≡ (0, p'))
    × Added x86 adding adding-IsValid 0xE0904002 0xE0A15003 adds-IsPlain refl clear_carry
        adc-IsPlain one_is_not_four three_is_not_four five_is_not_four p'
arm_data_processing-Added_example =
    arm_data_processing-Added x86 adding adding-IsValid 0xE0904002 0xE0A15003 adds-IsPlain refl
      clear_carry adc-IsPlain one_is_not_four three_is_not_four five_is_not_four
