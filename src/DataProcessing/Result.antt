-- ===== src/DataProcessing/Result.antt =====
-- What a data processing instruction writes, by the arithmetic of words.
use projet_s.Common.{
  ℕ, ◌+◌, ◌%◌, ◌^◌, ◌<◌, ◌≡◌, arith, ◌==◌, ◌||◌, if◌then◌else◌, bit_and, bit_or, bit_xor,
}
use projet_s.Word.{not32}
use projet_s.Constants.Opcode
use projet_s.DataProcessing.{operation}

-- The sum of two words and a carry. A difference is the sum with the complement.
abbrev adder : ℕ → ℕ → ℕ → ℕ
adder x y k = (x + y + k) % 2 ^ 32

-- The result for the operands a and b and the carry c, by the number of the operation.
abbrev pub result : ℕ → ℕ → ℕ → ℕ → ℕ
result opcode a b c =
    if opcode == Opcode.add || opcode == Opcode.cmn
    then adder a b 0
    else if opcode == Opcode.adc
    then adder a b c
    else if opcode == Opcode.sub || opcode == Opcode.cmp
    then adder a (not32 b) 1
    else if opcode == Opcode.sbc
    then adder a (not32 b) c
    else if opcode == Opcode.rsb
    then adder b (not32 a) 1
    else if opcode == Opcode.rsc
    then adder b (not32 a) c
    else if opcode == Opcode.and || opcode == Opcode.tst
    then bit_and a b
    else if opcode == Opcode.eor || opcode == Opcode.teq
    then bit_xor a b
    else if opcode == Opcode.orr
    then bit_or a b
    else if opcode == Opcode.bic
    then bit_and a (not32 b)
    else if opcode == Opcode.mov
    then b
    else not32 b

pub operation-result :
    (opcode a b c other : ℕ)
    → opcode < 16
    → a < 2 ^ 32
    → b < 2 ^ 32
    → c < 2
    → operation opcode a b c other ≡ result opcode a b c
unfolding operation
operation-result opcode a b c other small ha hb hc = ground arith
