-- ===== src/Arm.antt =====
-- arm_core.c: the processor's state, and its registers and memory as instructions see them.
-- The calls of the trace stand in Trace/Core.
pub mod Pc
pub mod Access
pub mod Valid
pub mod Transfers
pub mod Print
use projet_s.Common.{ℕ, ◌+◌, Bool, bit_and, ◌==◌, if◌then◌else◌}
use projet_s.Outcome.{Outcome, ok, ◌>>=◌}
use projet_s.Word.{Host, add32, sub32}
use projet_s.Memory
use projet_s.Memory.{Memory}
use projet_s.Registers
use projet_s.Registers.{Registers}

pub record ArmCore : Type 0 where
  pub cycle_count : ℕ
  pub reg : Registers
  pub mem : Memory

unfoldable pub current_mode_has_spsr : ArmCore → Bool
current_mode_has_spsr p = Registers.current_mode_has_spsr p.reg

unfoldable pub in_a_privileged_mode : ArmCore → Bool
in_a_privileged_mode p = Registers.in_a_privileged_mode p.reg

unfoldable pub get_cycle_count : ArmCore → ℕ
get_cycle_count p = p.cycle_count

-- The program counter is read 4 bytes further on, with bit 1 cleared.
unfoldable pub ahead : ℕ → ℕ → ℕ
ahead reg value = if reg == 15 then bit_and (add32 value 4) 0xFFFFFFFD else value

unfoldable pub read_register : ArmCore → ℕ → ℕ
read_register p reg = ahead reg (Registers.read_register p.reg reg)

unfoldable pub read_usr_register : ArmCore → ℕ → ℕ
read_usr_register p reg = ahead reg (Registers.read_usr_register p.reg reg)

unfoldable pub read_cpsr : ArmCore → ℕ
read_cpsr p = Registers.read_cpsr p.reg

unfoldable pub read_spsr : ArmCore → ℕ
read_spsr p = Registers.read_spsr p.reg

unfoldable pub write_register : ArmCore → ℕ → ℕ → ArmCore
write_register p reg value = record p { reg = Registers.write_register p.reg reg value }

unfoldable pub write_usr_register : ArmCore → ℕ → ℕ → ArmCore
write_usr_register p reg value = record p { reg = Registers.write_usr_register p.reg reg value }

unfoldable pub write_cpsr : ArmCore → ℕ → ArmCore
write_cpsr p value = record p { reg = Registers.write_cpsr p.reg value }

unfoldable pub write_spsr : ArmCore → ℕ → ArmCore
write_spsr p value = record p { reg = Registers.write_spsr p.reg value }

-- The status, the word read (`value` if the read aborts), and the state afterwards.
unfoldable pub fetch : Host → ArmCore → ℕ → Outcome (ℕ × ℕ × ArmCore)
fetch host p value =
    let p = record p { cycle_count = add32 p.cycle_count 1 } in
    let address = sub32 (read_register p 15) 4 in
    do
      (result, value) ← Memory.read_word host p.mem address value
      ok (result, value, write_register p 15 (add32 address 4))

unfoldable pub read_byte : ArmCore → ℕ → ℕ → Outcome (ℕ × ℕ)
read_byte p address value = Memory.read_byte p.mem address value

unfoldable pub read_half : Host → ArmCore → ℕ → ℕ → Outcome (ℕ × ℕ)
read_half host p address value = Memory.read_half host p.mem address value

unfoldable pub read_word : Host → ArmCore → ℕ → ℕ → Outcome (ℕ × ℕ)
read_word host p address value = Memory.read_word host p.mem address value

unfoldable pub write_byte : ArmCore → ℕ → ℕ → Outcome (ℕ × ArmCore)
write_byte p address value = do
  (result, mem) ← Memory.write_byte p.mem address value
  ok (result, record p { mem = mem })

unfoldable pub write_half : Host → ArmCore → ℕ → ℕ → Outcome (ℕ × ArmCore)
write_half host p address value = do
  (result, mem) ← Memory.write_half host p.mem address value
  ok (result, record p { mem = mem })

unfoldable pub write_word : Host → ArmCore → ℕ → ℕ → Outcome (ℕ × ArmCore)
write_word host p address value = do
  (result, mem) ← Memory.write_word host p.mem address value
  ok (result, record p { mem = mem })
