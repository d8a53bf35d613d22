-- ===== src/Instruction/Compare.antt =====
-- A comparison and the branch that follows it, as two steps of the processor.
use mathlib.Core.Path.{subst}
use projet_s.Common.{
  ℕ, ◌+◌, ◌/◌, ◌%◌, ◌^◌, ◌<◌, ◌≡◌, ◌⊎◌, inl, inr, refl, ap, ◌∙◌, arith, ◌==◌, ◌&&◌, Bool, true,
  false, not, both_ways, bit_and, nonzero, if◌then◌else◌,
}
use projet_s.Constants.Condition
use projet_s.Outcome.{ok}
use projet_s.Word.{Host, add32, shr}
use projet_s.Word.Masks.{masked-eq-mod}
use projet_s.Word.Shift.{shr-eq-div}
use projet_s.Word.Signed.{signed32, leb_ℤ, ltb_ℤ}
use projet_s.Bits.{bit_and-mask}
use projet_s.Registers
use projet_s.Arm
use projet_s.Arm.{ArmCore, read_cpsr}
use projet_s.Arm.Access.{read_cpsr-write_cpsr}
use projet_s.Arm.Pc.{fetched}
use projet_s.Arm.Valid.{IsValid, read_register-lt, update-IsWords}
use projet_s.Branch.Target.{Branched}
use projet_s.DataProcessing.{operand, arm_data_processing}
use projet_s.DataProcessing.Valid.{operand-lt}
use projet_s.DataProcessing.Test.{
  IsCompare, compared_to, after_compare, arm_data_processing-compare,
}
use projet_s.DataProcessing.Compare.{holds, status-compared}
use projet_s.Instruction.{passes, dispatch, arm_step}
use projet_s.Instruction.Steps.{
  IsReady, current, arm_step-fetched, arm_step-branch, arm_step-skipped,
}

-- The instruction is one of data processing, with a second operand that is a number or a register.
pub data IsData (ins : ℕ) : Type 0 where
  immediate : ins / 2 ^ 25 % 8 ≡ 1 → IsData ins
  shifted : ins / 2 ^ 25 % 8 ≡ 0 → ins / 2 ^ 4 % 2 ≡ 0 → IsData ins
  by_register : ins / 2 ^ 25 % 8 ≡ 0 → ins / 2 ^ 7 % 2 ≡ 0 → IsData ins

-- What the signed conditions say of two words.
abbrev pub order : ℕ → ℕ → ℕ → Bool
order cond a b =
    if cond == Condition.ge
    then leb_ℤ (signed32 b) (signed32 a)
    else if cond == Condition.lt
    then ltb_ℤ (signed32 a) (signed32 b)
    else if cond == Condition.gt
    then ltb_ℤ (signed32 b) (signed32 a)
    else if cond == Condition.le
    then leb_ℤ (signed32 a) (signed32 b)
    else if cond == Condition.eq
    then a == b
    else not (a == b)

abbrev pub IsOrder : ℕ → Type 0
IsOrder cond =
    (cond ≡ Condition.ge)
    ⊎ (cond ≡ Condition.lt)
    ⊎ (cond ≡ Condition.gt)
    ⊎ (cond ≡ Condition.le)
    ⊎ (cond ≡ Condition.eq)
    ⊎ (cond ≡ Condition.ne)

bit_at : (host : Host) (ins i : ℕ) → i < 32 → bit_and (shr host ins i) 1 ≡ ins / 2 ^ i % 2
bit_at host ins i h =
    bit_and-mask 1 (shr host ins i) ∙ ap (λ (t : ℕ). t % 2) (shr-eq-div host ins i h)

neither : (t : Bool) → (t && false) ≡ false
neither true = refl
neither false = refl

-- The dispatch on the kind of the instruction.
dispatch-data :
    (host : Host) (p : ArmCore) (ins : ℕ)
    → IsData ins
    → dispatch host p ins ≡ ok (0, (arm_data_processing host p ins).1)
unfolding dispatch
dispatch-data host p ins (immediate k) = rw (masked-eq-mod 3 25 ins, k) refl
dispatch-data host p ins (shifted k b) =
    rw (masked-eq-mod 3 25 ins, k, bit_at host ins 4 (omega arith), b) refl
dispatch-data host p ins (by_register k b) =
    rw
      (
        masked-eq-mod 3 25 ins,
        k,
        bit_at host ins 7 (omega arith),
        b,
        neither (nonzero (bit_and (shr host ins 4) 1)),
      )
      refl

-- The conditions on a status word after a comparison.
by_order :
    (s a b : ℕ)
    → (holds s Condition.ge ≡ leb_ℤ (signed32 b) (signed32 a))
      × (holds s Condition.lt ≡ ltb_ℤ (signed32 a) (signed32 b))
      × (holds s Condition.gt ≡ ltb_ℤ (signed32 b) (signed32 a))
      × (holds s Condition.le ≡ leb_ℤ (signed32 a) (signed32 b))
      × (holds s Condition.eq ≡ (a == b))
      × (holds s Condition.ne ≡ not (a == b))
    → (cond : ℕ) → IsOrder cond
    → holds s cond ≡ order cond a b
by_order s a b all cond (inl e) = rw e all.0
by_order s a b all cond (inr (inl e)) = rw e all.1
by_order s a b all cond (inr (inr (inl e))) = rw e all.2
by_order s a b all cond (inr (inr (inr (inl e)))) = rw e all.3
by_order s a b all cond (inr (inr (inr (inr (inl e))))) = rw e all.4
by_order s a b all cond (inr (inr (inr (inr (inr e))))) = rw e all.5

fetched-IsValid : {size : ℕ} {p : ArmCore} → IsValid size p → IsValid size (fetched p)
fetched-IsValid {p} valid = record {
  words = update-IsWords p.reg 15 (add32 (p.reg 15) 4) valid.words (omega arith);
  bytes = valid.bytes;
  same_size = valid.same_size;
}

module _ (host : Host) {size : ℕ} (p : ArmCore) (valid : IsValid size p) (ready : IsReady p)
    (is_data : IsData (current p)) (compare : IsCompare (current p))
    (passed : passes (read_cpsr p) (current p) ≡ true) where
  -- The operands, as they are read after the fetch.
  abbrev first : ℕ
  first = compared_to (fetched p) (current p)

  abbrev second : ℕ
  second = (operand host (fetched p) (current p)).0

  -- The state after the comparison.
  abbrev after : ArmCore
  after = Arm.write_cpsr (fetched p) (after_compare host (fetched p) (current p))

  arm_step-compare : arm_step host p ≡ ok (0, after)
  arm_step-compare =
      arm_step-fetched host p ready
      ∙ rw
          (
            passed,
            dispatch-data host (fetched p) (current p) is_data,
            arm_data_processing-compare host (fetched p) (current p) compare,
          )
          refl

  -- The next word is the branch.
  module _ (more : p.reg 15 + 7 < p.mem.size) where
    ready_after : IsReady after
    unfolding Arm.write_cpsr Registers.write_cpsr
    ready_after = record {
      aligned = omega (arith, ready.aligned, ready.size_fits, more);
      inside = omega (arith, ready.size_fits, more);
      size_fits = ready.size_fits;
      bytes = ready.bytes;
    }

    holds-order :
        (cond : ℕ)
        → IsOrder cond
        → 0 < first
        → holds (read_cpsr after) cond ≡ order cond first second
    holds-order cond kind pos =
        ap (λ s. holds s cond)
          (read_cpsr-write_cpsr (fetched p) (after_compare host (fetched p) (current p)))
        ∙ by_order (after_compare host (fetched p) (current p)) first second
            (status-compared host (read_cpsr (fetched p)) first second
              (operand host (fetched p) (current p)).1
              (read_register-lt (fetched-IsValid valid) (current p / 2 ^ 16 % 2 ^ 4))
              (operand-lt host (current p) (fetched-IsValid valid)) pos)
            cond kind

    passes-order :
        (cond : ℕ)
        → IsOrder cond
        → 0 < first
        → current after / 2 ^ 28 % 2 ^ 4 ≡ cond
        → passes (read_cpsr after) (current after) ≡ order cond first second
    unfolding passes
    passes-order cond kind pos e =
        ap (holds (read_cpsr after)) (masked-eq-mod 4 28 (current after) ∙ e)
        ∙ holds-order cond kind pos

    pc_after : after.reg 15 ≡ p.reg 15 + 4
    unfolding Arm.write_cpsr Registers.write_cpsr
    pc_after = omega (arith, ready.size_fits, more)

    -- Two steps, of which the second takes the branch or goes on to the next instruction.
    pub record Decided (cond : ℕ) (p' : ArmCore) : Type 0 where
      pub compared : arm_step host p ≡ ok (0, after)
      pub next : arm_step host after ≡ ok (0, p')
      pub taken :
          order cond first second ≡ true
          → Branched (fetched after) (p.reg 15 + 4) (current after) p'
      pub passed_by : order cond first second ≡ false → p' ≡ fetched after

    -- A comparison and a branch on a signed condition, one after the other in the memory, are two
    -- steps: the first writes the flags only, and the second takes the branch exactly when the
    -- signed numbers of the two operands, of which the first is not 0, are in the order that its
    -- condition names, and otherwise goes on to the next instruction.
    pub arm_step-Decided :
        (cond : ℕ)
        → IsOrder cond
        → 0 < first
        → current after / 2 ^ 28 % 2 ^ 4 ≡ cond
        → current after / 2 ^ 25 % 8 ≡ 5
        → (p' : ArmCore) × Decided cond p'
    arm_step-Decided cond kind pos e branch =
        both_ways (order cond first second)
          (λ yes_taken.
            let (p', step, branched) =
              arm_step-branch host after ready_after (passes-order cond kind pos e ∙ yes_taken)
                branch in
            (
              p',
              record {
                compared = arm_step-compare;
                next = step;
                taken = λ h.
                    subst (λ here. Branched (fetched after) here (current after) p') pc_after
                      branched;
                passed_by = λ h. cc;
              },
            ))
          λ not_taken. (
            fetched after,
            record {
              compared = arm_step-compare;
              next =
                  arm_step-skipped host after ready_after
                    (passes-order cond kind pos e ∙ not_taken);
              taken = λ h. cc;
              passed_by = λ h. refl;
            },
          )
