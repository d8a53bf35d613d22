-- ===== src/DataProcessing/Return.antt =====
-- A data processing instruction that writes the program counter and has the status bit, in a mode
-- with a saved status word: the return from a handler.
use projet_s.Common.{ℕ, ◌/◌, ◌%◌, ◌^◌, ◌<◌, ◌≡◌, refl, ap, sym, arith, ◌∙◌, true, false}
use projet_s.Word.{Host}
use projet_s.Word.Masks.{masked-eq-mod}
use projet_s.Bits.{digit}
use projet_s.Registers
use projet_s.Registers.{Registers}
use projet_s.Registers.Bank.{register_index-low}
use projet_s.Registers.Access.{read_spsr-update_pc, get_mode-update_pc}
use projet_s.Arm
use projet_s.Arm.{ArmCore}
use projet_s.Arm.Access.{read_cpsr-write_cpsr}
use projet_s.Arm.Pc.{write_pc}
use projet_s.Arm.Valid.{IsValid}
use projet_s.DataProcessing.{operand, set_flags, is_test, arm_data_processing}
use projet_s.DataProcessing.Result.{result}
use projet_s.DataProcessing.Destination.{value-eq, writing}

spsr_kept : (p : ArmCore) (v : ℕ) → Arm.read_spsr (Arm.write_register p 15 v) ≡ Arm.read_spsr p
unfolding Arm.read_spsr
spsr_kept p v = rw (write_pc p v) (read_spsr-update_pc p.reg v)

low_words : (r : Registers) (a : ℕ) → a < 8 → Registers.read_register r a ≡ r a
unfolding Registers.read_register
low_words r a h = ap r (register_index-low (Registers.get_mode r) a h)

low_kept :
    (p : ArmCore) (v c a : ℕ)
    → a < 8
    → Arm.read_register (Arm.write_cpsr (Arm.write_register p 15 v) c) a ≡ Arm.read_register p a
unfolding Arm.read_register Arm.write_cpsr
low_kept p v c a h = ap (Arm.ahead a) (
    low_words (Registers.write_cpsr (Arm.write_register p 15 v).reg c) a h
    ∙ same
    ∙ sym (low_words p.reg a h))
  where
    same : Registers.write_cpsr (Arm.write_register p 15 v).reg c a ≡ p.reg a
    same = rw (write_pc p v) (unfold Registers.write_cpsr in ground arith)

module _ (host : Host) (p : ArmCore) (ins : ℕ) where
  -- The result, with the second operand that the shifter gives.
  abbrev pub returned_to : ℕ
  returned_to =
      result (ins / 2 ^ 21 % 2 ^ 4) (Arm.read_register p (ins / 2 ^ 16 % 2 ^ 4))
        (operand host p ins).0 (digit (Arm.read_cpsr p) 29)

  abbrev pub returned : ArmCore
  returned =
      Arm.write_cpsr (Arm.write_register p 15 returned_to)
        (Arm.read_spsr (Arm.write_register p 15 returned_to))

  pub returned-pc : returned.reg 15 ≡ returned_to
  unfolding Arm.write_cpsr Registers.write_cpsr Arm.write_register Registers.write_register
      Registers.register_index
  returned-pc = refl

  pub returned-status : Arm.read_cpsr returned ≡ Arm.read_spsr p
  returned-status =
      read_cpsr-write_cpsr (Arm.write_register p 15 returned_to) _ ∙ spsr_kept p returned_to

  pub returned-memory : returned.mem ≡ p.mem
  unfolding Arm.write_cpsr Arm.write_register
  returned-memory = refl

  pub returned-low : (a : ℕ) → a < 8 → Arm.read_register returned a ≡ Arm.read_register p a
  returned-low = low_kept p returned_to (Arm.read_spsr (Arm.write_register p 15 returned_to))

  has_spsr :
      Arm.current_mode_has_spsr p ≡ true
      → Arm.current_mode_has_spsr (Arm.write_register p 15 returned_to) ≡ true
  unfolding Arm.current_mode_has_spsr Registers.current_mode_has_spsr
  has_spsr h = rw (write_pc p returned_to, get_mode-update_pc p.reg returned_to) h

  module _ {size : ℕ} (valid : IsValid size p) where
    pub arm_data_processing-returned :
        is_test (ins / 2 ^ 21 % 2 ^ 4) ≡ false
        → ins / 2 ^ 20 % 2 ≡ 1
        → ins / 2 ^ 12 % 2 ^ 4 ≡ 15
        → Arm.current_mode_has_spsr p ≡ true
        → arm_data_processing host p ins ≡ (0, returned)
    unfolding arm_data_processing set_flags
    arm_data_processing-returned writes set to_pc spsr =
        rw
          (
            masked-eq-mod 4 21 ins,
            masked-eq-mod 4 16 ins,
            masked-eq-mod 4 12 ins,
            masked-eq-mod 1 20 ins,
            masked-eq-mod 2 23 ins,
            writes,
            value-eq host p valid ins,
            writing host p valid ins writes,
            set,
            to_pc,
            has_spsr spsr,
          )
          refl
