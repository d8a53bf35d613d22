-- ===== src/Instruction/Valid.antt =====
-- A step of the processor keeps the well-formed states.
use projet_s.Common.{ℕ, ◌^◌, ◌<◌, ◌==◌, ◌&&◌, nonzero, bit_and}
use projet_s.Outcome.{Outcome, ok, ◌>>=◌, Ensures, Ensures-if, Ensures-ok, Ensures->>=}
use projet_s.Constants.InstructionType
use projet_s.Word.{Host, masked, shr}
use projet_s.Arm
use projet_s.Arm.{ArmCore}
use projet_s.Arm.Valid.{IsValid, IsValid-if}
use projet_s.Arm.Transfers.{fetch-IsValid}
use projet_s.Exception.Valid.{arm_exception-IsValid}
use projet_s.Branch.Valid.{arm_branch-IsValid, arm_coprocessor_others_swi-IsValid}
use projet_s.DataProcessing.Valid.{arm_data_processing-IsValid}
use projet_s.LoadStore.Valid.{arm_load_store-IsValid}
use projet_s.LoadStore.Multiple.Valid.{arm_load_store_multiple-IsValid}
use projet_s.Instruction.{passes, dispatch, arm_execute_instruction, arm_step}

module _ (host : Host) (fits : host.indeterminate < 2 ^ 32) {size : ℕ} {p : ArmCore}
    (valid : IsValid size p) where
  abbrev Kept : Outcome (ℕ × ArmCore) → Type 0
  Kept run = Ensures run (λ r. IsValid size r.1)

  -- The result of a handler is not used.
  dropped : {run : Outcome (ℕ × ArmCore)} → Kept run → Kept (run >>= λ r. ok (0, r.1))
  dropped e = Ensures->>= e λ r h. Ensures-ok h

  dispatch-IsValid : (ins : ℕ) → Kept (dispatch host p ins)
  unfolding dispatch
  dispatch-IsValid ins =
      let kind = masked ins 0b111 25 in
      let single = dropped (arm_load_store-IsValid host valid ins fits) in
      let processed = Ensures-ok (arm_data_processing-IsValid host valid ins fits) in
      Ensures-if (kind == InstructionType.data_processing_shift)
        (Ensures-if (nonzero (bit_and (shr host ins 4) 1) && nonzero (bit_and (shr host ins 7) 1))
          single processed)
        (Ensures-if (kind == InstructionType.data_processing_immediate) processed (
          Ensures-if (kind == InstructionType.load_store_immediate) single (
            Ensures-if (kind == InstructionType.load_store_register) single (
              Ensures-if (kind == InstructionType.load_store_multiple)
                (dropped (arm_load_store_multiple-IsValid host ins valid fits))
                (Ensures-if (kind == InstructionType.branch)
                  (Ensures-ok (arm_branch-IsValid host valid ins))
                  (Ensures-if (kind == InstructionType.coprocessor_others_swi)
                    (dropped (arm_coprocessor_others_swi-IsValid host valid ins))
                    (Ensures-ok valid)))))))

module _ (host : Host) (fits : host.indeterminate < 2 ^ 32) {size : ℕ} {p : ArmCore}
    (valid : IsValid size p) where
  arm_execute_instruction-IsValid : Ensures (arm_execute_instruction host p) (λ r. IsValid size r.1)
  unfolding arm_execute_instruction
  arm_execute_instruction-IsValid =
      Ensures->>= (fetch-IsValid host valid host.indeterminate fits) λ r (_, still).
        Ensures-if (nonzero r.0) (Ensures-ok still) (
          Ensures-if (passes (Arm.read_cpsr p) r.1) (dispatch-IsValid host fits still r.1)
            (Ensures-ok still))

  -- A step from a well-formed state, every register a word and every cell of the memory a byte,
  -- ends in a well-formed state with a memory of the same size, if it does not leave the memory's
  -- array and does not end the simulation.
  pub arm_step-IsValid : Ensures (arm_step host p) (λ r. IsValid size r.1)
  unfolding arm_step
  arm_step-IsValid =
      Ensures->>= arm_execute_instruction-IsValid
        λ r still. Ensures-ok (IsValid-if (nonzero r.0) (arm_exception-IsValid r.0 still) still)
