-- ===== src/Instruction.antt =====
-- arm_instruction.c: conditions, dispatch on the type, and a step of the processor.
pub mod Conditions
pub mod Steps
pub mod Valid
pub mod Compare
use projet_s.Common.{
  ℕ, ◌*◌, ◌/◌, ◌^◌, ◌==◌, ◌&&◌, ◌||◌, Bool, true, not, if◌then◌else◌, bit_and, nonzero,
}
use projet_s.Constants.{undefined_instruction}
use projet_s.Constants.Condition
use projet_s.Constants.InstructionType
use projet_s.Outcome.{Outcome, ok, ◌>>=◌}
use projet_s.Word.{Host, masked, shr}
use projet_s.Arm
use projet_s.Arm.{ArmCore}
use projet_s.Exception.{arm_exception}
use projet_s.Branch.{arm_branch, arm_coprocessor_others_swi}
use projet_s.DataProcessing.{arm_data_processing}
use projet_s.LoadStore.{arm_load_store}
use projet_s.LoadStore.Multiple.{arm_load_store_multiple}

-- Equality of two flags.
abbrev pub same : Bool → Bool → Bool
same a b = if a then b else not b

-- Whether the instruction is executed, for the flags n, z, c and v.
unfoldable pub condition_passed : Bool → Bool → Bool → Bool → ℕ → Bool
condition_passed n z c v cond =
    if cond == Condition.eq
    then z
    else if cond == Condition.ne
    then not z
    else if cond == Condition.cs
    then c
    else if cond == Condition.cc
    then not c
    else if cond == Condition.mi
    then n
    else if cond == Condition.pl
    then not n
    else if cond == Condition.vs
    then v
    else if cond == Condition.vc
    then not v
    else if cond == Condition.hi
    then c && not z
    else if cond == Condition.ls
    then not c || z
    else if cond == Condition.ge
    then same n v
    else if cond == Condition.lt
    then not (same n v)
    else if cond == Condition.gt
    then not z && same n v
    else if cond == Condition.le
    then z || not (same n v)
    else true

-- The condition of the instruction, with the flags of a status word.
unfoldable pub passes : ℕ → ℕ → Bool
passes cpsr ins =
    condition_passed (nonzero (masked cpsr 0b1 31)) (nonzero (masked cpsr 0b1 30))
      (nonzero (masked cpsr 0b1 29)) (nonzero (masked cpsr 0b1 28)) (masked ins 0b1111 28)

module _ (host : Host) where
  -- The handlers' results are not used.
  unfoldable pub dispatch : ArmCore → ℕ → Outcome (ℕ × ArmCore)
  dispatch p ins =
      let kind = masked ins 0b111 25 in
      if kind == InstructionType.data_processing_shift
      then (if nonzero (bit_and (shr host ins 4) 1) && nonzero (bit_and (shr host ins 7) 1)
          then (arm_load_store host p ins >>= λ r. ok (0, r.1))
          else ok (0, (arm_data_processing host p ins).1))
      else if kind == InstructionType.data_processing_immediate
      then ok (0, (arm_data_processing host p ins).1)
      else if kind == InstructionType.load_store_immediate
      then (arm_load_store host p ins >>= λ r. ok (0, r.1))
      else if kind == InstructionType.load_store_register
      then (arm_load_store host p ins >>= λ r. ok (0, r.1))
      else if kind == InstructionType.load_store_multiple
      then (arm_load_store_multiple host ins p >>= λ r. ok (0, r.1))
      else if kind == InstructionType.branch
      then ok (0, (arm_branch host p ins).1)
      else if kind == InstructionType.coprocessor_others_swi
      then (arm_coprocessor_others_swi host p ins >>= λ r. ok (0, r.1))
      else ok (undefined_instruction, p)

  unfoldable pub arm_execute_instruction : ArmCore → Outcome (ℕ × ArmCore)
  unfolding passes dispatch
  arm_execute_instruction p = do
    let cpsr = Arm.read_cpsr p
    (result, ins, p) ← Arm.fetch host p host.indeterminate
    if nonzero result then ok (result, p) else if passes cpsr ins then dispatch p ins else ok (0, p)

  unfoldable pub arm_step : ArmCore → Outcome (ℕ × ArmCore)
  unfolding arm_execute_instruction
  arm_step p = do
    (result, p) ← arm_execute_instruction p
    ok (result, if nonzero result then arm_exception p result else p)
