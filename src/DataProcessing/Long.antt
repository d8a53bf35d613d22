-- ===== src/DataProcessing/Long.antt =====
-- Words of 64 bits in two registers: ADDS and ADC, one after the other.
use mathlib.Core.Path.{subst, ap₂}
use projet_s.Instruction.{condition_passed}
use projet_s.DataProcessing.Compare.{summed, status-summed}
use projet_s.Common.{
  ℕ, ◌+◌, ◌*◌, ◌/◌, ◌%◌, ◌^◌, ◌<◌, ◌≡◌, ◌≢◌, refl, ap, sym, arith, ◌∙◌, leb, to_bit, false,
}
use projet_s.Constants.Opcode
use projet_s.Word.{Host, add32}
use projet_s.Bits.{digit, digit-lt}
use projet_s.Arm
use projet_s.Arm.{ArmCore}
use projet_s.Arm.Access.{read_cpsr-write_cpsr}
use projet_s.Arm.Valid.{
  IsValid, read_register-lt, read_cpsr-lt, write_register-IsValid, write_cpsr-IsValid,
}
use projet_s.DataProcessing.{arm_data_processing, is_test, carried}
use projet_s.DataProcessing.Valid.{status-lt}
use projet_s.DataProcessing.Flags.{flag-digit, bit-nonzero}
use projet_s.DataProcessing.Destination.{
  Computed, arm_data_processing-Computed, arm_data_processing-flags, flags, value,
}
use projet_s.DataProcessing.Plain.{IsPlain, rd, rn, rm, operand-plain}

-- A number of 64 bits, from its halves.
abbrev pub long : ℕ → ℕ → ℕ
long high low = high * 2 ^ 32 + low

long_sum :
    (a b c d : ℕ)
    → a < 2 ^ 32
    → b < 2 ^ 32
    → c < 2 ^ 32
    → d < 2 ^ 32
    → long ((a + c + to_bit (leb (2 ^ 32) (b + d))) % 2 ^ 32) (add32 b d)
      ≡ (long a b + long c d) % 2 ^ 64
long_sum a b c d ha hb hc hd = ground arith

-- ADDS and ADC, for the low and the high halves.
module _ (host : Host) {size : ℕ} (p : ArmCore) (valid : IsValid size p) (low high : ℕ)
    (adds : IsPlain Opcode.add low) (sets : low / 2 ^ 20 % 2 ≡ 1) where
  writes : is_test (low / 2 ^ 21 % 2 ^ 4) ≡ false
  unfolding is_test
  writes = rw adds.operation refl

  abbrev sum : ℕ
  sum = value host p valid low

  sum-eq : sum ≡ add32 (Arm.read_register p (rn low)) (Arm.read_register p (rm low))
  sum-eq = rw (adds.operation, operand-plain host p valid adds) (omega arith)

  abbrev new_status : ℕ
  new_status = flags host p valid low writes adds.other_rd

  -- The state between the two.
  abbrev between : ArmCore
  between = Arm.write_cpsr (Arm.write_register p (rd low) sum) new_status

  between-step : arm_data_processing host p low ≡ (0, between)
  between-step = arm_data_processing-flags host p valid low writes adds.other_rd sets

  sum-lt : sum < 2 ^ 32
  sum-lt = omega (arith, sum-eq)

  between-IsValid : IsValid size between
  between-IsValid =
      write_cpsr-IsValid (write_register-IsValid valid (rd low) sum sum-lt) new_status
        (status-lt host _ _ _ _ _ _ (read_cpsr-lt valid))

  between-Computed : Computed host p valid low between
  between-Computed =
      let (p', step, computed) =
        arm_data_processing-Computed host p valid low writes adds.other_rd in
      subst (Computed host p valid low) (ap (λ (r : ℕ × ArmCore). r.1) (sym step ∙ between-step))
        computed

  module _ (clear : digit (Arm.read_cpsr p) 29 ≡ 0) where
    abbrev sum_status : ℕ
    sum_status =
        summed host (Arm.read_cpsr p) (Arm.read_register p (rn low)) (Arm.read_register p (rm low))
          0 (read_register-lt valid (rn low)) (read_register-lt valid (rm low))

    new_status-eq : new_status ≡ sum_status
    unfolding carried
    new_status-eq = rw (sum-eq, adds.operation, operand-plain host p valid adds, clear) refl

    between-carry :
        digit (Arm.read_cpsr between) 29
        ≡ to_bit (leb (2 ^ 32) (Arm.read_register p (rn low) + Arm.read_register p (rm low)))
    unfolding condition_passed
    between-carry =
        ap (λ s. digit s 29)
          (read_cpsr-write_cpsr (Arm.write_register p (rd low) sum) new_status ∙ new_status-eq)
        ∙ sym (bit-nonzero (digit sum_status 29) (digit-lt sum_status 29))
        ∙ ap to_bit (
            sym (flag-digit sum_status 29)
            ∙ (status-summed host (Arm.read_cpsr p) (Arm.read_register p (rn low))
                (Arm.read_register p (rm low)) 0 (read_register-lt valid (rn low))
                (read_register-lt valid (rm low)) refl).3)

    module _ (adc : IsPlain Opcode.adc high) (apart_rn : rn high ≢ rd low)
        (apart_rm : rm high ≢ rd low) (apart_rd : rd high ≢ rd low) where
      high_writes : is_test (high / 2 ^ 21 % 2 ^ 4) ≡ false
      unfolding is_test
      high_writes = rw adc.operation refl

      high_sum-eq :
          value host between between-IsValid high
          ≡ (Arm.read_register p (rn high)
              + Arm.read_register p (rm high)
              + to_bit (leb (2 ^ 32) (Arm.read_register p (rn low) + Arm.read_register p (rm low))))
            % 2 ^ 32
      high_sum-eq =
          rw
            (
              adc.operation,
              operand-plain host between between-IsValid adc,
              between-carry,
              between-Computed.others (rn high) (omega arith) apart_rn,
              between-Computed.others (rm high) (omega arith) apart_rm,
            )
            refl

      -- The state after the two.
      pub record Added (p' : ArmCore) : Type 0 where
        total :
            long (Arm.read_register p' (rd high)) (Arm.read_register p' (rd low))
            ≡ (long (Arm.read_register p (rn high)) (Arm.read_register p (rn low))
                + long (Arm.read_register p (rm high)) (Arm.read_register p (rm low)))
              % 2 ^ 64
        others :
            (i : ℕ)
            → i < 16
            → i ≢ rd low
            → i ≢ rd high
            → Arm.read_register p' i ≡ Arm.read_register p i
        memory : p'.mem ≡ p.mem

      -- With the flag C clear, ADDS on the low halves and ADC on the high halves, of registers that
      -- are not the program counter's place, put the sum of the two 64-bit numbers, modulo 2 ^ 64,
      -- into their two destinations, when the low destination is none of the registers of ADC; no
      -- other register of the mode and no memory changes.
      pub arm_data_processing-Added :
          (p' : ArmCore) × (arm_data_processing host (arm_data_processing host p low).1 high
            ≡ (0, p'))
          × Added p'
      arm_data_processing-Added =
          let (p', step, computed) =
            arm_data_processing-Computed host between between-IsValid high high_writes
              adc.other_rd in
          (
            p',
            ap (λ (r : ℕ × ArmCore). arm_data_processing host r.1 high) between-step ∙ step,
            record {
              total =
                  ap₂ long (computed.written ∙ high_sum-eq) (
                    computed.others (rd low) (omega arith) (λ e. apart_rd (sym e))
                    ∙ between-Computed.written
                    ∙ sum-eq)
                  ∙ long_sum (Arm.read_register p (rn high)) (Arm.read_register p (rn low))
                      (Arm.read_register p (rm high)) (Arm.read_register p (rm low))
                      (read_register-lt valid (rn high)) (read_register-lt valid (rn low))
                      (read_register-lt valid (rm high)) (read_register-lt valid (rm low));
              others = λ i small other_low other_high.
                  computed.others i small other_high ∙ between-Computed.others i small other_low;
              memory = computed.memory ∙ between-Computed.memory;
            },
          )
