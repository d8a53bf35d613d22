-- ===== src/DataProcessing/Destination.antt =====
-- The destination and the status word after a data processing instruction.
use projet_s.Arm.Access.{
  write_register_frame, read_register-written, read_cpsr-written, read_register-write_cpsr,
  read_cpsr-write_cpsr,
}
use projet_s.DataProcessing.Valid.{operand-lt}
use projet_s.Util.Fields.{get_bit-digit}
use projet_s.Util.{get_bit}
use projet_s.Bits.{digit-lt, digit-eq-mod, digit}
use projet_s.Arm.Valid.{read_register-lt, IsValid}
use projet_s.Common.{
  both_ways, sym, ℕ, ◌/◌, ◌%◌, ◌^◌, ◌<◌, ◌≡◌, ◌≢◌, refl, ◌∙◌, arith, false, ◌==◌, nonzero,
  if◌then◌else◌,
}
use projet_s.DataProcessing.Flags.{flag, status_common}
use projet_s.Word.{Host}
use projet_s.Word.Masks.{masked-eq-mod}
use projet_s.Arm
use projet_s.Arm.{ArmCore}
use projet_s.DataProcessing.{
  operation, operand, set_flags, is_test, arm_data_processing, status, carried,
}
use projet_s.DataProcessing.Result.{result, operation-result}

-- The status word keeps its mode when its lower bits do.
mode_kept : (x y : ℕ) → ((i : ℕ) → i < 28 → digit x i ≡ digit y i) → x % 2 ^ 5 ≡ y % 2 ^ 5
mode_kept x y h = omega (
  arith,
  bit 0 (omega arith),
  bit 1 (omega arith),
  bit 2 (omega arith),
  bit 3 (omega arith),
  bit 4 (omega arith),
)
  where
    bit : (i : ℕ) → i < 28 → x / 2 ^ i % 2 ≡ y / 2 ^ i % 2
    bit i small = sym (digit-eq-mod x i) ∙ h i small ∙ digit-eq-mod y i

module _ (host : Host) {size : ℕ} (p : ArmCore) (valid : IsValid size p) (ins : ℕ) where
  abbrev opcode : ℕ
  opcode = ins / 2 ^ 21 % 2 ^ 4

  abbrev rn : ℕ
  rn = Arm.read_register p (ins / 2 ^ 16 % 2 ^ 4)

  abbrev rd : ℕ
  rd = ins / 2 ^ 12 % 2 ^ 4

  -- The result, with the second operand that the shifter gives.
  abbrev pub value : ℕ
  value = result opcode rn (operand host p ins).0 (digit (Arm.read_cpsr p) 29)

  pub value-eq :
      operation opcode rn
        (operand host p ins).0
        (get_bit host (Arm.read_cpsr p) 29)
        host.indeterminate
      ≡ value
  value-eq = rw (get_bit-digit host (Arm.read_cpsr p) 29 (omega arith)) (
      operation-result opcode rn (operand host p ins).0 (digit (Arm.read_cpsr p) 29)
        host.indeterminate (omega arith) (read_register-lt valid (ins / 2 ^ 16 % 2 ^ 4))
        (operand-lt host ins valid) (digit-lt (Arm.read_cpsr p) 29))

  -- The state after the result was written, with the flags if the status bit is set.
  pub record Computed (p' : ArmCore) : Type 0 where
    pub written : Arm.read_register p' rd ≡ value
    pub others : (i : ℕ) → i < 16 → i ≢ rd → Arm.read_register p' i ≡ Arm.read_register p i
    pub memory : p'.mem ≡ p.mem
    cycles : p'.cycle_count ≡ p.cycle_count
    status_kept : ins / 2 ^ 20 % 2 ≡ 0 → Arm.read_cpsr p' ≡ Arm.read_cpsr p
    status_set :
        ins / 2 ^ 20 % 2 ≡ 1
        → (flag (Arm.read_cpsr p') 31 ≡ nonzero (digit value 31))
          × (flag (Arm.read_cpsr p') 30 ≡ (value == 0))
          × ((i : ℕ) → i < 28 → digit (Arm.read_cpsr p') i ≡ digit (Arm.read_cpsr p) i)

  module _ (writes : is_test opcode ≡ false) where
    -- The operations that are not tests write their result.
    pub writing : (ins / 2 ^ 23 % 2 ^ 2 == 0b10) ≡ false
    unfolding is_test
    writing = ground (arith, writes)

    arm_data_processing-plain :
        ins / 2 ^ 20 % 2 ≡ 0 → arm_data_processing host p ins ≡ (0, Arm.write_register p rd value)
    unfolding arm_data_processing
    arm_data_processing-plain plain =
        rw
          (
            masked-eq-mod 4 21 ins,
            masked-eq-mod 4 16 ins,
            masked-eq-mod 4 12 ins,
            masked-eq-mod 1 20 ins,
            masked-eq-mod 2 23 ins,
            writes,
            value-eq,
            writing,
            plain,
          )
          refl

    module _ (other_rd : rd ≢ 15) where
      -- The status word that the flags are written to.
      abbrev pub flags : ℕ
      flags =
          status host opcode (Arm.read_cpsr p) rn
            (carried host opcode (operand host p ins).0 (get_bit host (Arm.read_cpsr p) 29)) value
            (operand host p ins).1

      not_pc : (rd == 15) ≡ false
      not_pc = ground (arith, other_rd)

      pub arm_data_processing-flags :
          ins / 2 ^ 20 % 2 ≡ 1
          → arm_data_processing host p ins
            ≡ (0, Arm.write_cpsr (Arm.write_register p rd value) flags)
      unfolding arm_data_processing set_flags
      arm_data_processing-flags set =
          rw
            (
              masked-eq-mod 4 21 ins,
              masked-eq-mod 4 16 ins,
              masked-eq-mod 4 12 ins,
              masked-eq-mod 1 20 ins,
              masked-eq-mod 2 23 ins,
              writes,
              value-eq,
              writing,
              set,
              not_pc,
              read_cpsr-written p rd value (omega arith),
            )
            refl

      own : (if rd == rd then Arm.ahead rd value else Arm.read_register p rd) ≡ value
      unfolding Arm.ahead
      own = ground (arith, other_rd)

      Succeeds : Type 0
      Succeeds = (p' : ArmCore) × (arm_data_processing host p ins ≡ (0, p')) × Computed p'

      computed-plain : ins / 2 ^ 20 % 2 ≡ 0 → Succeeds
      unfolding Succeeds
      computed-plain plain = (
        Arm.write_register p rd value,
        arm_data_processing-plain plain,
        record {
          written = read_register-written p rd rd value (omega arith) (omega arith) ∙ own;
          others = λ i small other.
              read_register-written p rd i value (omega arith) small ∙ ground arith;
          memory = (write_register_frame p rd value).0;
          cycles = (write_register_frame p rd value).1;
          status_kept = λ set. read_cpsr-written p rd value (omega arith);
          status_set = λ set. ground (arith, plain, set);
        },
      )

      common :
          (flag flags 31 ≡ nonzero (digit value 31))
          × (flag flags 30 ≡ (value == 0))
          × ((i : ℕ) → i < 28 → digit flags i ≡ digit (Arm.read_cpsr p) i)
      common =
          status_common host opcode (Arm.read_cpsr p) rn
            (carried host opcode (operand host p ins).0 (get_bit host (Arm.read_cpsr p) 29)) value
            (operand host p ins).1

      same_mode : flags % 2 ^ 5 ≡ Arm.read_cpsr (Arm.write_register p rd value) % 2 ^ 5
      same_mode =
          mode_kept flags (Arm.read_cpsr p) common.2
          ∙ rw (read_cpsr-written p rd value (omega arith)) refl

      through :
          (i : ℕ)
          → i < 16
          → Arm.read_register (Arm.write_cpsr (Arm.write_register p rd value) flags) i
            ≡ Arm.read_register (Arm.write_register p rd value) i
      through i small =
          read_register-write_cpsr (Arm.write_register p rd value) flags i small same_mode

      frame :
          ((Arm.write_cpsr (Arm.write_register p rd value) flags).mem ≡ p.mem)
          × ((Arm.write_cpsr (Arm.write_register p rd value) flags).cycle_count ≡ p.cycle_count)
      unfolding Arm.write_cpsr Arm.write_register
      frame = (refl, refl)

      computed-flags : ins / 2 ^ 20 % 2 ≡ 1 → Succeeds
      unfolding Succeeds
      computed-flags set = (
        Arm.write_cpsr (Arm.write_register p rd value) flags,
        arm_data_processing-flags set,
        record {
          written =
              through rd (omega arith)
              ∙ read_register-written p rd rd value (omega arith) (omega arith)
              ∙ own;
          others = λ i small other.
              through i small
              ∙ read_register-written p rd i value (omega arith) small
              ∙ ground arith;
          memory = frame.0;
          cycles = frame.1;
          status_kept = λ plain. ground (arith, plain, set);
          status_set =
              λ set. rw (read_cpsr-write_cpsr (Arm.write_register p rd value) flags) common;
        },
      )

      -- A data processing instruction that is no test and whose destination is no program counter
      -- always succeeds. It writes the arithmetic result of its operands to the destination and
      -- changes no other register of the mode and no memory. The status word stays as it is
      -- without the status bit; with it, N and Z are those of the result and the lower 28 bits stay.
      pub arm_data_processing-Computed :
          (p' : ArmCore) × (arm_data_processing host p ins ≡ (0, p')) × Computed p'
      unfolding Succeeds
      arm_data_processing-Computed =
          both_ways (ins / 2 ^ 20 % 2 == 0) (λ e. computed-plain (ground (arith, e)))
            λ e. computed-flags (ground (arith, e))
