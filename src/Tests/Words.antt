-- ===== src/Tests/Words.antt =====
-- The theorems on the shifter and the flags at concrete values.
use projet_s.Common.{ℕ, ◌+◌, ◌≡◌, ◌<◌, ◌%◌, min, true, false, refl, arith}
use projet_s.Constants.Opcode
use projet_s.Constants.Condition
use projet_s.Constants.ShiftType
use projet_s.Bits.{digit}
use projet_s.Word.{sub32}
use projet_s.Shifter.{shift_value}
use projet_s.Shifter.Operand.{shift_value_lem, shift_value-asr}
use projet_s.DataProcessing.{status, is_arithmetic}
use projet_s.DataProcessing.Compare.{holds, status-compared_unsigned}
use projet_s.Tests.Machine.{x86}

shift_value_lem_example :
    (shift_value x86 ShiftType.lsl 9 4 1 ≡ (144, digit 9 28))
    × (shift_value x86 ShiftType.lsr 9 4 1 ≡ (0, digit 9 3))
    × ((shift_value x86 ShiftType.ror 9 4 1).1 ≡ digit 9 3)
    × ((i : ℕ) → i < 32 → digit (shift_value x86 ShiftType.ror 9 4 1).0 i ≡ digit 9 ((i + 4) % 32))
shift_value_lem_example = shift_value_lem x86 9 (omega arith) 1 4 (omega arith) (omega arith)

shift_value-asr_example :
    ((shift_value x86 ShiftType.asr 9 4 1).1 ≡ digit 9 3)
    × ((i : ℕ)
        → i < 32
        → digit (shift_value x86 ShiftType.asr 9 4 1).0 i ≡ digit 9 (min (i + 3) 31))
shift_value-asr_example = shift_value-asr x86 9 (omega arith) 1 4 (omega arith) (omega arith)

status-compared_unsigned_example :
    (holds (status x86 Opcode.cmp 0x10 3 5 (sub32 3 5) 0) Condition.cs ≡ false)
    × (holds (status x86 Opcode.cmp 0x10 3 5 (sub32 3 5) 0) Condition.cc ≡ true)
    × (holds (status x86 Opcode.cmp 0x10 3 5 (sub32 3 5) 0) Condition.hi ≡ false)
    × (holds (status x86 Opcode.cmp 0x10 3 5 (sub32 3 5) 0) Condition.ls ≡ true)
status-compared_unsigned_example =
    status-compared_unsigned x86 0x10 3 5 0 (omega arith) (omega arith) (omega arith) refl

arithmetic : is_arithmetic Opcode.add ≡ true
unfolding is_arithmetic
arithmetic = refl
