-- ===== src/Exception/Entry.antt =====
-- The state in which a handler starts.
use projet_s.Registers.Access.{
  read_spsr-update_pc, get_mode-write_cpsr, read_register-update_pc, get_mode-update_pc,
  read_spsr-switch, read_register-write_cpsr, read_spsr-write_register, read_register-switch,
  get_mode-write_spsr, write_spsr-below,
}
use projet_s.Word.{add32, sub32, u32}
use projet_s.Constants.{sp, svc, reset, pc, lr}
use projet_s.Registers.Bank.{
  register_index-injective, get_mode-eq-mod, register_index-low, register_index-ge,
  register_index-lt, bank, IsMode,
}
use projet_s.Arm
use projet_s.Common.{
  ℕ, ◌-◌, ◌*◌, ◌%◌, ◌^◌, ◌<◌, ◌≡◌, ◌≢◌, refl, ap, arith, ◌∙◌, ◌==◌, false, if◌then◌else◌,
}
use projet_s.Arm.{ArmCore}
use projet_s.Registers
use projet_s.Registers.{Registers, register_index}
use projet_s.Memory.{Memory, update}
use projet_s.Exception.{arm_exception, arm_create, entry_status, link_offset}
use projet_s.Exception.Status.{IsRaised, handler_mode, HandlerStatus, entry_status-HandlerStatus}

-- The register file before the handler's address is put into the program counter.
abbrev saved : Registers → ℕ → ℕ → Registers
saved r e return =
    Registers.write_cpsr
      (Registers.write_register (Registers.write_spsr r (Registers.read_cpsr r)) lr return)
      (entry_status e (Registers.read_cpsr r))

IsRaised-ne_reset : (e : ℕ) → IsRaised e → (e == reset) ≡ false
IsRaised-ne_reset e p = ground arith

IsRaised-vector : (e : ℕ) → IsRaised e → u32 (sub32 e 1 * 4) ≡ 4 * (e - 1)
IsRaised-vector e p = omega arith

module _ (p : ArmCore) (e : ℕ) (mode : IsMode (Registers.get_mode p.reg))
    (raised : IsRaised e) where
  abbrev return : ℕ
  return = add32 (Arm.read_register p pc) (link_offset e)

  raised_reg : arm_exception p e ≡ record p { reg = update (saved p.reg e return) pc (4 * (e - 1)) }
  unfolding arm_exception Arm.write_cpsr Arm.read_cpsr Arm.write_spsr Arm.write_register
      Arm.read_register Arm.write_usr_register Registers.write_usr_register
  raised_reg =
      rw (IsRaised-ne_reset e raised, IsRaised-vector e raised)
        (ap (λ (w : ℕ). record p { reg = update (saved p.reg e w) pc (4 * (e - 1)) }) same_pc)
    where
      same_pc :
          add32
            (Arm.read_register
              (record p { reg = Registers.write_spsr p.reg (Registers.read_cpsr p.reg) })
              pc)
            (link_offset e)
          ≡ return
      same_pc =
          unfold Arm.read_register Registers.read_register Registers.register_index in
          ap (λ (w : ℕ). add32 (Arm.ahead 15 w) (link_offset e))
            (write_spsr-below p.reg (Registers.read_cpsr p.reg) 15 mode (omega arith))

  abbrev status : ℕ
  status = entry_status e (Arm.read_cpsr p)

  abbrev before : Registers
  before = Registers.write_spsr p.reg (Registers.read_cpsr p.reg)

  handler : HandlerStatus e (entry_status e (Registers.read_cpsr p.reg))
  handler = entry_status-HandlerStatus e (Registers.read_cpsr p.reg) raised

  handler-IsMode : IsMode (entry_status e (Registers.read_cpsr p.reg) % 2 ^ 5)
  handler-IsMode = rw handler.mode (ground arith)

  before-IsMode : IsMode (Registers.get_mode before)
  before-IsMode = rw (get_mode-write_spsr p.reg (Registers.read_cpsr p.reg) mode) mode

  -- The link register of the handler's mode.
  saved_link : Registers.read_register (saved p.reg e return) lr ≡ (
      if bank (Registers.get_mode p.reg) == handler_mode e
      then return
      else p.reg (register_index (handler_mode e) lr))
  saved_link =
      read_register-switch before lr lr return (entry_status e (Registers.read_cpsr p.reg))
        before-IsMode handler-IsMode (omega arith) (omega arith)
      ∙ ground (
        arith,
        get_mode-write_spsr p.reg (Registers.read_cpsr p.reg) mode,
        handler.mode,
        read_register-write_cpsr before (entry_status e (Registers.read_cpsr p.reg)) lr
            (omega arith),
        write_spsr-below p.reg (Registers.read_cpsr p.reg) (register_index (handler_mode e) lr)
            mode,
        register_index-lt (handler_mode e) lr (omega arith),
        raised,
      )

  saved_status : Registers.read_spsr (saved p.reg e return) ≡ (
      if Registers.get_mode p.reg == handler_mode e
      then Registers.read_cpsr p.reg
      else Registers.read_spsr
          (Registers.write_cpsr p.reg (entry_status e (Registers.read_cpsr p.reg))))
  saved_status =
      read_spsr-write_register before lr return (entry_status e (Registers.read_cpsr p.reg))
        handler-IsMode (omega arith)
      ∙ read_spsr-switch p.reg (Registers.read_cpsr p.reg)
          (entry_status e (Registers.read_cpsr p.reg)) mode handler-IsMode
      ∙ (unfold Registers.current_mode_has_spsr in ground (arith, handler.mode, raised))

module _ (p : ArmCore) (e : ℕ) (mode : IsMode (Registers.get_mode p.reg)) where
  saved_low : (return a : ℕ) → a < 8 → saved p.reg e return a ≡ p.reg a
  unfolding Registers.write_cpsr Registers.write_register
  saved_low return a h = ground (
    arith,
    register_index-ge (Registers.get_mode (Registers.write_spsr p.reg (Registers.read_cpsr p.reg)))
        lr (omega arith),
    write_spsr-below p.reg (Registers.read_cpsr p.reg) a mode (omega arith),
  )

  low_registers :
      (return v a : ℕ)
      → a < 8
      → Registers.read_register (update (saved p.reg e return) pc v) a
        ≡ Registers.read_register p.reg a
  low_registers return v a h =
      read_register-update_pc (saved p.reg e return) v a (omega arith)
      ∙ (unfold Registers.read_register in
          rw (register_index-low _ a h, register_index-low _ a h) (saved_low return a h))

-- `p'` is `p` at the start of the handler of `e`.
pub record Entered (p : ArmCore) (e : ℕ) (p' : ArmCore) : Type 0 where
  pub status : Arm.read_cpsr p' ≡ entry_status e (Arm.read_cpsr p)
  pub handler_status : HandlerStatus e (Arm.read_cpsr p')
  pub mode : Registers.get_mode p'.reg ≡ handler_mode e
  pub vector : p'.reg pc ≡ 4 * (e - 1)
  pub low_registers : (a : ℕ) → a < 8 → Arm.read_register p' a ≡ Arm.read_register p a
  pub memory : p'.mem ≡ p.mem
  pub cycles : p'.cycle_count ≡ p.cycle_count

-- From one of the seven modes, an exception other than RESET and the unused one starts its handler:
-- in the handler's mode, in ARM state, with interrupts masked, at the exception's vector; r0 to r7,
-- the memory and the count of cycles stay.
pub arm_exception-Entered :
    (p : ArmCore) (e : ℕ)
    → IsMode (Registers.get_mode p.reg)
    → IsRaised e
    → Entered p e (arm_exception p e)
unfolding Arm.read_cpsr Registers.read_cpsr Registers.write_cpsr
arm_exception-Entered p e mode raised = rw (raised_reg p e mode raised) (record {
  status = refl;
  handler_status = handler p e mode raised;
  mode =
      get_mode-update_pc (saved p.reg e (return p e mode raised)) (4 * (e - 1))
      ∙ get_mode-write_cpsr
          (Registers.write_register (before p e mode raised) lr (return p e mode raised))
          (entry_status e (Registers.read_cpsr p.reg))
      ∙ (handler p e mode raised).mode;
  vector = refl;
  low_registers = λ a h.
      unfold Arm.read_register in
      ap (Arm.ahead a) (low_registers p e mode (return p e mode raised) (4 * (e - 1)) a h);
  memory = refl;
  cycles = refl;
})

module _ (p : ArmCore) (e : ℕ) (mode : IsMode (Registers.get_mode p.reg))
    (raised : IsRaised e) where
  -- The registers after a change back to the status that was interrupted.
  abbrev pub back : Registers
  back = Registers.write_cpsr (arm_exception p e).reg (Registers.read_cpsr p.reg)

  back_mode : Registers.get_mode back ≡ Registers.get_mode p.reg
  unfolding Registers.read_cpsr
  back_mode =
      get_mode-write_cpsr (arm_exception p e).reg (p.reg 16) ∙ ground (arith, get_mode-eq-mod p.reg)

  not_pc : (m : ℕ) → register_index m lr ≢ pc
  unfolding register_index
  not_pc m h = ground (arith, register_index-injective m lr pc (omega arith) (omega arith) h)

  back_link : Registers.read_register back lr ≡ return p e mode raised
  unfolding Registers.read_register
  back_link =
      rw (back_mode, raised_reg p e mode raised)
        (unfold Registers.write_cpsr Registers.write_register in
          rw (get_mode-write_spsr p.reg (Registers.read_cpsr p.reg) mode) (
            ground (
              arith,
              register_index-lt (Registers.get_mode p.reg) lr (omega arith),
              register_index-ge (Registers.get_mode p.reg) lr (omega arith),
              not_pc (Registers.get_mode p.reg),
            )))

  back_status :
      Registers.read_spsr back
      ≡ (if Registers.current_mode_has_spsr p.reg then Registers.read_cpsr p.reg else 0)
  unfolding Registers.read_spsr Registers.current_mode_has_spsr
  back_status =
      rw (back_mode, raised_reg p e mode raised)
        (unfold Registers.write_cpsr Registers.write_register Registers.write_spsr in
          ground (
            arith,
            mode,
            register_index-lt (Registers.get_mode (before p e mode raised)) lr (omega arith),
          ))

-- From one of the seven modes, the return address of an exception other than RESET and the unused
-- one is put into the link register of the mode that was interrupted, and the status into its saved
-- status word, if it has one: after a change back to the status they are there. USR and SYS have no
-- saved status word, which reads as 0. The handler finds the two only where that mode is its own;
-- otherwise it reads what its own bank held before.
pub arm_exception_banks :
    (p : ArmCore) (e : ℕ)
    → IsMode (Registers.get_mode p.reg)
    → IsRaised e
    → (Arm.read_register (arm_exception p e) lr ≡ (
        if bank (Registers.get_mode p.reg) == handler_mode e
        then add32 (Arm.read_register p pc) (link_offset e)
        else p.reg (register_index (handler_mode e) lr)))
      × (Arm.read_spsr (arm_exception p e) ≡ (
          if Registers.get_mode p.reg == handler_mode e
          then Arm.read_cpsr p
          else Registers.read_spsr (Registers.write_cpsr p.reg (entry_status e (Arm.read_cpsr p)))))
      × (Registers.read_register (Registers.write_cpsr (arm_exception p e).reg (Arm.read_cpsr p)) lr
          ≡ add32 (Arm.read_register p pc) (link_offset e))
      × (Registers.read_spsr (Registers.write_cpsr (arm_exception p e).reg (Arm.read_cpsr p))
          ≡ (if Arm.current_mode_has_spsr p then Arm.read_cpsr p else 0))
unfolding Arm.read_cpsr
arm_exception_banks p e mode raised = (
  rw (raised_reg p e mode raised) (
      unfold Arm.read_register Arm.ahead in
      read_register-update_pc (saved p.reg e (return p e mode raised)) (4 * (e - 1)) lr
        (omega arith)
      ∙ saved_link p e mode raised),
  rw (raised_reg p e mode raised) (
      unfold Arm.read_spsr in
      read_spsr-update_pc (saved p.reg e (return p e mode raised)) (4 * (e - 1))
      ∙ saved_status p e mode raised),
  back_link p e mode raised,
  unfold Arm.current_mode_has_spsr in back_status p e mode raised,
)

-- A created processor is in supervisor mode with interrupts masked, its stack at 0x800, about to
-- fetch its first instruction at address 0 with no cycle counted, whatever `malloc` found.
pub arm_create_lem :
    (registers : Registers) (mem : Memory)
    → let p = arm_create registers mem in
      (Arm.read_cpsr p ≡ 0xd3)
      × (Registers.get_mode p.reg ≡ svc)
      × (Arm.read_register p sp ≡ 0x800)
      × (p.reg pc ≡ 0)
      × (p.cycle_count ≡ 0)
      × (p.mem ≡ mem)
unfolding arm_create Arm.write_cpsr Arm.write_register Arm.write_usr_register Arm.read_cpsr
    Arm.read_register Arm.ahead Registers.read_register Registers.write_register
    Registers.write_cpsr Registers.write_usr_register Registers.get_mode Registers.register_index
    Registers.mode_offset
arm_create_lem registers mem = (refl, refl, refl, refl, refl, refl)
