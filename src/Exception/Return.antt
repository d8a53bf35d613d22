-- ===== src/Exception/Return.antt =====
-- The return from a handler to the instruction that was interrupted.
use projet_s.Common.{false, ℕ, ◌+◌, ◌/◌, ◌%◌, ◌^◌, ◌<◌, ◌≡◌, refl, arith, ◌∙◌, true}
use projet_s.Constants.{lr, pc}
use projet_s.Constants.Opcode
use projet_s.Word.{Host, add32}
use projet_s.Registers
use projet_s.Registers.Bank.{IsMode}
use projet_s.Arm
use projet_s.Arm.{ArmCore}
use projet_s.Arm.Pc.{read_pc}
use projet_s.Arm.Valid.{IsValid}
use projet_s.DataProcessing.{operand, arm_data_processing, is_test}
use projet_s.DataProcessing.Return.{
  returned, returned_to, arm_data_processing-returned, returned-pc, returned-status, returned-low,
  returned-memory,
}
use projet_s.Exception.{arm_exception, link_offset}
use projet_s.Exception.Status.{IsRaised, handler_mode}
use projet_s.Exception.Valid.{arm_exception-IsValid}
use projet_s.Exception.Entry.{Entered, arm_exception-Entered, arm_exception_banks}

-- SUBS pc, lr, with a second operand.
pub record IsReturn (ins : ℕ) : Type 0 where
  pub opcode : ins / 2 ^ 21 % 2 ^ 4 ≡ Opcode.sub
  pub sets : ins / 2 ^ 20 % 2 ≡ 1
  pub from_lr : ins / 2 ^ 16 % 2 ^ 4 ≡ lr
  pub to_pc : ins / 2 ^ 12 % 2 ^ 4 ≡ pc

-- `p'` goes on where `p` was.
pub record Resumed (p p' : ArmCore) : Type 0 where
  pub next : p'.reg 15 ≡ p.reg 15
  pub status : Arm.read_cpsr p' ≡ Arm.read_cpsr p
  pub low_registers : (a : ℕ) → a < 8 → Arm.read_register p' a ≡ Arm.read_register p a
  pub memory : p'.mem ≡ p.mem

module _ (host : Host) {size : ℕ} (p : ArmCore) (valid : IsValid size p) (e ins : ℕ)
    (is_return : IsReturn ins) (raised : IsRaised e) (mode : IsMode (Registers.get_mode p.reg))
    (own : Registers.get_mode p.reg ≡ handler_mode e) (aligned : p.reg 15 % 4 ≡ 0)
    (back : (operand host (arm_exception p e) ins).0 ≡ 4 + link_offset e) where
  entered : Entered p e (arm_exception p e)
  entered = arm_exception-Entered p e mode raised

  has_spsr : Arm.current_mode_has_spsr (arm_exception p e) ≡ true
  unfolding Arm.current_mode_has_spsr Registers.current_mode_has_spsr
  has_spsr = rw entered.mode (ground (arith, raised))

  link : Arm.read_register (arm_exception p e) lr ≡ add32 (Arm.read_register p pc) (link_offset e)
  link = (arm_exception_banks p e mode raised).0 ∙ ground (arith, own, raised)

  saved : Arm.read_spsr (arm_exception p e) ≡ Arm.read_cpsr p
  saved = (arm_exception_banks p e mode raised).1 ∙ ground (arith, own)

  offset_small : link_offset e < 9
  unfolding link_offset
  offset_small = ground arith

  here : returned_to host (arm_exception p e) ins ≡ p.reg 15
  here =
      rw (is_return.opcode, is_return.from_lr, link, back, read_pc p aligned)
        (omega (arith, valid.words 15, offset_small))

  -- From the handler of an exception that was taken in the handler's own mode, SUBS pc, lr, #12 for
  -- a data abort and the two interrupts, and SUBS pc, lr, #8 for the others, goes back to where the
  -- program counter stood, with the status word, r0 to r7 and the memory as they were.
  pub arm_data_processing-Resumed :
      (p' : ArmCore) × (arm_data_processing host (arm_exception p e) ins ≡ (0, p')) × Resumed p p'
  arm_data_processing-Resumed = (
    returned host (arm_exception p e) ins,
    arm_data_processing-returned host (arm_exception p e) ins (arm_exception-IsValid e valid) writes
        is_return.sets is_return.to_pc has_spsr,
    record {
      next = returned-pc host (arm_exception p e) ins ∙ here;
      status = returned-status host (arm_exception p e) ins ∙ saved;
      low_registers =
          λ a h. returned-low host (arm_exception p e) ins a h ∙ entered.low_registers a h;
      memory = returned-memory host (arm_exception p e) ins ∙ entered.memory;
    },
  )
    where
      writes : is_test (ins / 2 ^ 21 % 2 ^ 4) ≡ false
      writes = unfold is_test in rw is_return.opcode refl
