-- ===== src/DataProcessing/Plain.antt =====
-- Data processing instructions on two registers without a shift.
use projet_s.Common.{ℕ, ◌/◌, ◌%◌, ◌^◌, ◌≡◌, ◌≢◌, arith}
use projet_s.Word.{Host}
use projet_s.Word.Masks.{masked-eq-mod}
use projet_s.Bits.{digit, digit-lt}
use projet_s.Util.Fields.{get_bit-eq-mod, get_bit-digit}
use projet_s.Shifter.{shifter_operand, shift_amount}
use projet_s.Shifter.Operand.{shift_value_zero}
use projet_s.Arm
use projet_s.Arm.{ArmCore}
use projet_s.Arm.Valid.{IsValid, read_register-lt}
use projet_s.DataProcessing.{operand}

-- An instruction on two registers, with no shift, whose destination is not the program counter.
pub record IsPlain (opcode ins : ℕ) : Type 0 where
  pub operation : ins / 2 ^ 21 % 2 ^ 4 ≡ opcode
  pub register : ins / 2 ^ 25 % 2 ≡ 0
  pub unshifted : ins / 2 ^ 4 % 2 ^ 8 ≡ 0
  pub other_rd : ins / 2 ^ 12 % 2 ^ 4 ≢ 15

abbrev pub rd : ℕ → ℕ
rd ins = ins / 2 ^ 12 % 2 ^ 4

abbrev pub rn : ℕ → ℕ
rn ins = ins / 2 ^ 16 % 2 ^ 4

abbrev pub rm : ℕ → ℕ
rm ins = ins % 2 ^ 4

module _ (host : Host) {size : ℕ} (p : ArmCore) (valid : IsValid size p) {opcode ins : ℕ}
    (plain : IsPlain opcode ins) where
  shift_amount-plain : shift_amount host p ins ≡ 0
  unfolding shift_amount
  shift_amount-plain =
      rw
        (
          masked-eq-mod 1 4 ins,
          masked-eq-mod 5 7 ins,
          get_bit-eq-mod host ins 4 (omega arith),
          get_bit-eq-mod host ins 6 (omega arith),
          by_number,
          none,
        )
        (ground arith)
    where
      by_number : ins / 2 ^ 4 % 2 ≡ 0
      by_number = omega (arith, plain.unshifted)

      none : ins / 2 ^ 7 % 2 ^ 5 ≡ 0
      none = omega (arith, plain.unshifted)

  -- The second operand is the register, and the carry out the flag C.
  pub operand-plain :
      operand host p ins ≡ (Arm.read_register p (rm ins), digit (Arm.read_cpsr p) 29)
  unfolding operand shifter_operand
  operand-plain =
      rw
        (
          masked-eq-mod 1 25 ins,
          masked-eq-mod 2 5 ins,
          masked-eq-mod 4 0 ins,
          shift_amount-plain,
          plain.register,
          kind,
          low,
          get_bit-digit host (Arm.read_cpsr p) 29 (omega arith),
        )
        (shift_value_zero host (Arm.read_register p (rm ins)) (read_register-lt valid (rm ins))
          (digit (Arm.read_cpsr p) 29) (digit-lt (Arm.read_cpsr p) 29)).0
    where
      kind : ins / 2 ^ 5 % 2 ^ 2 ≡ 0
      kind = omega (arith, plain.unshifted)

      low : ins / 2 ^ 0 % 2 ^ 4 ≡ rm ins
      low = omega arith
