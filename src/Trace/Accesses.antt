-- ===== src/Trace/Accesses.antt =====
-- Sequences of accesses to the processor, with the trace and without it.
use projet_s.Common.{◌<◌, ◌+◌, ℕ, List, [], ◌∷◌}
use projet_s.Outcome.{Outcome, ok, ◌>>=◌}
use projet_s.Word.{Host}
use projet_s.Arm
use projet_s.Arm.{ArmCore}
use projet_s.Trace.{Trace}
use projet_s.Trace.Core
use projet_s.Trace.Core.{Traced, at_location, spsr, read, write, opcode_fetch, other_access}

-- A call of one of the functions of arm_core.c, with its arguments. For a read of the memory the
-- last argument is what the target of the pointer holds before.
pub data Access : Type 0 where
  fetched : ℕ → Access
  register_read : ℕ → Access
  usr_register_read : ℕ → Access
  cpsr_read : Access
  spsr_read : Access
  register_written : ℕ → ℕ → Access
  usr_register_written : ℕ → ℕ → Access
  cpsr_written : ℕ → Access
  spsr_written : ℕ → Access
  byte_read : ℕ → ℕ → Access
  half_read : ℕ → ℕ → Access
  word_read : ℕ → ℕ → Access
  byte_written : ℕ → ℕ → Access
  half_written : ℕ → ℕ → Access
  word_written : ℕ → ℕ → Access

-- What a call returns, what the target of its pointer holds afterwards, and the processor.
abbrev pub Result : Type 0
Result = ℕ × ℕ × ArmCore

module _ (host : Host) where
  unfoldable pub plain : ArmCore → Access → Outcome Result
  plain p (fetched value) = Arm.fetch host p value
  plain p (register_read reg) = ok (Arm.read_register p reg, 0, p)
  plain p (usr_register_read reg) = ok (Arm.read_usr_register p reg, 0, p)
  plain p cpsr_read = ok (Arm.read_cpsr p, 0, p)
  plain p spsr_read = ok (Arm.read_spsr p, 0, p)
  plain p (register_written reg value) = ok (0, 0, Arm.write_register p reg value)
  plain p (usr_register_written reg value) = ok (0, 0, Arm.write_usr_register p reg value)
  plain p (cpsr_written value) = ok (0, 0, Arm.write_cpsr p value)
  plain p (spsr_written value) = ok (0, 0, Arm.write_spsr p value)
  plain p (byte_read address value) = Arm.read_byte p address value >>= λ r. ok (r.0, r.1, p)
  plain p (half_read address value) = Arm.read_half host p address value >>= λ r. ok (r.0, r.1, p)
  plain p (word_read address value) = Arm.read_word host p address value >>= λ r. ok (r.0, r.1, p)
  plain p (byte_written address value) = Arm.write_byte p address value >>= λ r. ok (r.0, 0, r.1)
  plain p (half_written address value) =
      Arm.write_half host p address value >>= λ r. ok (r.0, 0, r.1)
  plain p (word_written address value) =
      Arm.write_word host p address value >>= λ r. ok (r.0, 0, r.1)

  abbrev by_value : ArmCore → Traced ℕ → Traced Result
  by_value p call = call >>= λ r. ok ((r.0, 0, p), r.1)

  abbrev by_pointer : ArmCore → Traced (ℕ × ℕ) → Traced Result
  by_pointer p call = call >>= λ r. ok ((r.0.0, r.0.1, p), r.1)

  abbrev by_state : Traced ArmCore → Traced Result
  by_state call = call >>= λ r. ok ((0, 0, r.0), r.1)

  abbrev by_status : Traced (ℕ × ArmCore) → Traced Result
  by_status call = call >>= λ r. ok ((r.0.0, 0, r.0.1), r.1)

  unfoldable pub perform : Trace → ArmCore → Access → Traced Result
  perform t p (fetched value) = Core.fetch host t p value
  perform t p (register_read reg) = by_value p (Core.read_register t p reg)
  perform t p (usr_register_read reg) = by_value p (Core.read_usr_register t p reg)
  perform t p cpsr_read = by_value p (Core.read_cpsr t p)
  perform t p spsr_read = by_value p (Core.read_spsr t p)
  perform t p (register_written reg value) = by_state (Core.write_register t p reg value)
  perform t p (usr_register_written reg value) = by_state (Core.write_usr_register t p reg value)
  perform t p (cpsr_written value) = by_state (Core.write_cpsr t p value)
  perform t p (spsr_written value) = by_state (Core.write_spsr t p value)
  perform t p (byte_read address value) = by_pointer p (Core.read_byte t p address value)
  perform t p (half_read address value) = by_pointer p (Core.read_half host t p address value)
  perform t p (word_read address value) = by_pointer p (Core.read_word host t p address value)
  perform t p (byte_written address value) = by_status (Core.write_byte t p address value)
  perform t p (half_written address value) = by_status (Core.write_half host t p address value)
  perform t p (word_written address value) = by_status (Core.write_word host t p address value)

  -- What the macros add to the value of a call. A void call has no value, 0 here, and its macro the
  -- value that is added. What is added is 0, so that the sum of words does not wrap.
  abbrev pub plus : Result → ℕ → Result
  plus (result, value, p) added = (result + added, value, p)

  -- What the calls return, one after the other, and the processor in the end.
  unfoldable pub plain_all : ArmCore → List Access → Outcome (List (ℕ × ℕ) × ArmCore)
  unfolding plain
  plain_all p [] = ok ([], p)
  plain_all p (a ∷ rest) = do
    (result, value, p) ← plain p a
    (results, p) ← plain_all p rest
    ok ((result, value) ∷ results, p)

  -- The same under the macros, each at its place in the source.
  unfoldable pub perform_all :
      Trace → ArmCore → List (ℕ × ℕ × Access) → Traced (List (ℕ × ℕ) × ArmCore)
  unfolding perform at_location
  perform_all t p [] = ok (([], p), t)
  perform_all t p ((file, line, a) ∷ rest) = do
    ((result, value, p), t) ← at_location t file line plus (λ t. perform t p a)
    ((results, p), t) ← perform_all t p rest
    ok (((result, value) ∷ results, p), t)

-- The register that a call names is one of the sixteen.
abbrev pub NamesRegister : Access → Type 0
NamesRegister (fetched value) = Unit
NamesRegister (register_read reg) = reg < 16
NamesRegister (usr_register_read reg) = reg < 16
NamesRegister cpsr_read = Unit
NamesRegister spsr_read = Unit
NamesRegister (register_written reg value) = reg < 16
NamesRegister (usr_register_written reg value) = reg < 16
NamesRegister (cpsr_written value) = Unit
NamesRegister (spsr_written value) = Unit
NamesRegister (byte_read address value) = Unit
NamesRegister (half_read address value) = Unit
NamesRegister (word_read address value) = Unit
NamesRegister (byte_written address value) = Unit
NamesRegister (half_written address value) = Unit
NamesRegister (word_written address value) = Unit

abbrev pub NameRegisters : List Access → Type 0
NameRegisters [] = Unit
NameRegisters (a ∷ rest) = NamesRegister a × NameRegisters rest

-- The calls, without their places.
abbrev pub calls : List (ℕ × ℕ × Access) → List Access
calls [] = []
calls ((file, line, a) ∷ rest) = a ∷ calls rest
