-- ===== src/Trace/Core.antt =====
-- The functions of arm_core.c with their calls of the trace, and the macros of trace_location.h that
-- name the place of a call.
use projet_s.Common.{ℕ}
use projet_s.Outcome.{Outcome, ok, ◌>>=◌}
use projet_s.Word.{Host, add32, sub32}
use projet_s.Constants.{cpsr, usr}
use projet_s.Memory
use projet_s.Registers
use projet_s.Arm
use projet_s.Arm.{ArmCore}
use projet_s.Trace.{Trace, trace_register, trace_memory, trace_start_location, trace_end_location}

abbrev pub spsr : ℕ
spsr = 17

abbrev pub other_access : ℕ
other_access = 0

abbrev pub opcode_fetch : ℕ
opcode_fetch = 1

abbrev pub write : ℕ
write = 0

abbrev pub read : ℕ
read = 1

-- What a function returns, with the trace afterwards.
abbrev pub Traced {ℓ} : Type ℓ → Type ℓ
Traced A = Outcome (A × Trace)

module _ (t : Trace) (p : ArmCore) where
  unfoldable pub read_register : ℕ → Traced ℕ
  read_register reg =
      let value = Arm.read_register p reg in
      do t ← trace_register t p.cycle_count read reg (Registers.get_mode p.reg) value; ok (value, t)

  unfoldable pub read_usr_register : ℕ → Traced ℕ
  read_usr_register reg =
      let value = Arm.read_usr_register p reg in
      do t ← trace_register t p.cycle_count read reg usr value; ok (value, t)

  unfoldable pub read_cpsr : Traced ℕ
  read_cpsr =
      let value = Arm.read_cpsr p in
      do t ← trace_register t p.cycle_count read cpsr 0 value; ok (value, t)

  unfoldable pub read_spsr : Traced ℕ
  read_spsr =
      let value = Arm.read_spsr p in
      do
        t ← trace_register t p.cycle_count read spsr (Registers.get_mode p.reg) value
        ok (value, t)

  unfoldable pub write_register : ℕ → ℕ → Traced ArmCore
  write_register reg value =
      let p = Arm.write_register p reg value in
      do t ← trace_register t p.cycle_count write reg (Registers.get_mode p.reg) value; ok (p, t)

  unfoldable pub write_usr_register : ℕ → ℕ → Traced ArmCore
  write_usr_register reg value =
      let p = Arm.write_usr_register p reg value in
      do t ← trace_register t p.cycle_count write reg usr value; ok (p, t)

  unfoldable pub write_cpsr : ℕ → Traced ArmCore
  write_cpsr value =
      let p = Arm.write_cpsr p value in
      do t ← trace_register t p.cycle_count write cpsr 0 value; ok (p, t)

  unfoldable pub write_spsr : ℕ → Traced ArmCore
  write_spsr value =
      let p = Arm.write_spsr p value in
      do t ← trace_register t p.cycle_count write spsr (Registers.get_mode p.reg) value; ok (p, t)

  unfoldable pub read_byte : ℕ → ℕ → Traced (ℕ × ℕ)
  read_byte address value = do
    r ← Memory.read_byte p.mem address value
    t ← trace_memory t p.cycle_count read 1 other_access address r.1
    ok (r, t)

  unfoldable pub write_byte : ℕ → ℕ → Traced (ℕ × ArmCore)
  write_byte address value = do
    (result, mem) ← Memory.write_byte p.mem address value
    t ← trace_memory t p.cycle_count write 1 other_access address value
    ok ((result, record p { mem = mem }), t)

module _ (host : Host) (t : Trace) (p : ArmCore) where
  unfoldable pub fetch : ℕ → Traced (ℕ × ℕ × ArmCore)
  unfolding read_register write_register
  fetch value =
      let p = record p { cycle_count = add32 p.cycle_count 1 } in
      do
        (pc, t) ← read_register t p 15
        let address = sub32 pc 4
        (result, value) ← Memory.read_word host p.mem address value
        t ← trace_memory t p.cycle_count read 4 opcode_fetch address value
        (p, t) ← write_register t p 15 (add32 address 4)
        ok ((result, value, p), t)

  unfoldable pub read_half : ℕ → ℕ → Traced (ℕ × ℕ)
  read_half address value = do
    r ← Memory.read_half host p.mem address value
    t ← trace_memory t p.cycle_count read 2 other_access address r.1
    ok (r, t)

  unfoldable pub read_word : ℕ → ℕ → Traced (ℕ × ℕ)
  read_word address value = do
    r ← Memory.read_word host p.mem address value
    t ← trace_memory t p.cycle_count read 4 other_access address r.1
    ok (r, t)

  unfoldable pub write_half : ℕ → ℕ → Traced (ℕ × ArmCore)
  write_half address value = do
    (result, mem) ← Memory.write_half host p.mem address value
    t ← trace_memory t p.cycle_count write 2 other_access address value
    ok ((result, record p { mem = mem }), t)

  unfoldable pub write_word : ℕ → ℕ → Traced (ℕ × ArmCore)
  write_word address value = do
    (result, mem) ← Memory.write_word host p.mem address value
    t ← trace_memory t p.cycle_count write 4 other_access address value
    ok ((result, record p { mem = mem }), t)

-- A call under a macro: the location is open while it runs, and what trace_end_location returns is
-- added to the value of the call, by `plus`.
unfoldable pub at_location {ℓ} :
    {A : Type ℓ} → Trace → (file line : ℕ) → (A → ℕ → A) → (Trace → Traced A) → Traced A
at_location t file line plus access = do
  t ← trace_start_location t file line
  (a, t) ← access t
  let (added, t) = trace_end_location t
  ok (plus a added, t)
