-- ===== src/Instruction/Steps.antt =====
-- `arm_step` as a whole: what a step does for the word at the program counter.
use projet_s.Util.Fields.{get_bit-eq-mod}
use projet_s.Bits.{bit_and-mask}
use projet_s.Common.{
  ℕ, ◌+◌, ◌/◌, ◌%◌, ◌^◌, ◌≤◌, ◌<◌, ◌≡◌, ◌≢◌, refl, arith, ◌∙◌, ◌==◌, true, false, nonzero,
  if◌then◌else◌,
}
use projet_s.Constants.{data_abort}
use projet_s.Outcome.{ok, ◌>>=◌}
use projet_s.Word.{Host, masked}
use projet_s.Word.Masks.{masked-eq-mod}
use projet_s.Memory
use projet_s.Memory.Words.{IsBytes, word_at}
use projet_s.Memory.Access.{read_word_lem}
use projet_s.Arm
use projet_s.Arm.{ArmCore, read_cpsr}
use projet_s.Arm.Pc.{fetched, fetch-fetched}
use projet_s.Exception.{arm_exception}
use projet_s.Branch.{arm_branch, arm_coprocessor_others_swi}
use projet_s.Branch.Target.{Branched, arm_branch-Branched}
use projet_s.Instruction.{passes, dispatch, arm_execute_instruction, arm_step}

-- The program counter points at an instruction within the memory.
pub record IsReady (p : ArmCore) : Type 0 where
  pub aligned : p.reg 15 % 4 ≡ 0
  pub inside : p.reg 15 + 3 < p.mem.size
  pub size_fits : p.mem.size ≤ 2 ^ 32
  pub bytes : IsBytes p.mem

abbrev pub current : ArmCore → ℕ
current p = word_at p.mem (p.reg 15)

abbrev kind : ℕ → ℕ
kind ins = ins / 2 ^ 25 % 8

module _ (host : Host) (p : ArmCore) (ready : IsReady p) where
  fetch-current : Arm.fetch host p host.indeterminate ≡ ok (0, current p, fetched p)
  fetch-current =
      fetch-fetched host p host.indeterminate (omega (arith, ready.inside, ready.size_fits))
        ready.aligned
      ∙ rw read refl
    where
      read : Memory.read_word host p.mem (p.reg 15) host.indeterminate ≡ ok (0, current p)
      read =
          read_word_lem host p.mem (p.reg 15) host.indeterminate ready.bytes
            (omega (arith, ready.inside, ready.size_fits))
          ∙ ground (arith, ready.inside)

  -- What `arm_step` does once the instruction has been read.
  pub arm_step-fetched : arm_step host p ≡ (
      (if passes (read_cpsr p) (current p)
        then dispatch host (fetched p) (current p)
        else ok (0, fetched p))
      >>= λ r. ok (r.0, if nonzero r.0 then arm_exception r.1 r.0 else r.1))
  unfolding arm_step arm_execute_instruction
  arm_step-fetched = rw fetch-current refl

  -- If the program counter points at a word of the memory, an instruction whose condition fails is
  -- only fetched.
  pub arm_step-skipped :
      passes (read_cpsr p) (current p) ≡ false → arm_step host p ≡ ok (0, fetched p)
  arm_step-skipped failed = arm_step-fetched ∙ rw failed refl

  module _ (passed : passes (read_cpsr p) (current p) ≡ true) where
    dispatched : (k : ℕ) → kind (current p) ≡ k → masked (current p) 0b111 25 ≡ k
    dispatched k h = masked-eq-mod 3 25 (current p) ∙ h

    -- If the program counter points at a word of the memory, a step at a branch whose condition
    -- passes succeeds, and its state is that after the fetch and the branch.
    pub arm_step-branch :
        kind (current p) ≡ 5
        → (p' : ArmCore) × (arm_step host p ≡ ok (0, p'))
          × Branched (fetched p) (p.reg 15) (current p) p'
    unfolding dispatch
    arm_step-branch branch = (
      (arm_branch host (fetched p) (current p)).1,
      arm_step-fetched ∙ rw (passed, dispatched 5 branch) refl,
      arm_branch-Branched host (fetched p) (current p) (p.reg 15) refl ready.aligned
          (omega (arith, ready.inside, ready.size_fits)),
    )

    -- If the program counter points at a word of the memory, a software interrupt whose condition
    -- passes and whose number is not the one that ends the simulation is only fetched.
    pub arm_step-swi :
        kind (current p) ≡ 7
        → current p / 2 ^ 24 % 2 ≡ 1
        → current p % 2 ^ 24 ≢ 0x123456
        → arm_step host p ≡ ok (0, fetched p)
    unfolding dispatch arm_coprocessor_others_swi
    arm_step-swi swi bit number =
        arm_step-fetched
        ∙ rw
            (
              passed,
              dispatched 7 swi,
              bit_and-mask 24 (current p),
              get_bit-eq-mod host (current p) 24 (omega arith) ∙ bit,
              other_number,
            )
            refl
      where
        other_number : (current p % 2 ^ 24 == 0x123456) ≡ false
        other_number = ground arith

-- A step with an aligned program counter at or after the end of a memory of bytes, and not among
-- the last three addresses, raises a data abort.
pub arm_step-abort :
    (host : Host) (p : ArmCore)
    → p.reg 15 % 4 ≡ 0
    → p.reg 15 + 3 < 2 ^ 32
    → p.mem.size ≤ p.reg 15
    → IsBytes p.mem
    → arm_step host p ≡ ok (data_abort, arm_exception (fetched p) data_abort)
unfolding arm_step arm_execute_instruction
arm_step-abort host p aligned fits outside bytes =
    rw (fetch-fetched host p host.indeterminate (omega arith) aligned, aborted) refl
  where
    aborted :
        Memory.read_word host p.mem (p.reg 15) host.indeterminate
        ≡ ok (data_abort, host.indeterminate)
    aborted =
        read_word_lem host p.mem (p.reg 15) host.indeterminate bytes fits ∙ ground (arith, outside)
