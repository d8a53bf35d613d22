-- ===== src/Arm/Access.antt =====
-- Registers after writes, with the program counter's lead.
use projet_s.Common.{ℕ, ◌%◌, ◌^◌, ◌<◌, ◌≡◌, refl, arith, ◌==◌, if◌then◌else◌}
use projet_s.Registers
use projet_s.Registers.Access.{read_register-write_register, read_cpsr-write_register}
use projet_s.Registers.Bank.{get_mode-eq-mod, register_index-lt}
use projet_s.Arm.{ArmCore, ahead, read_register, write_register, write_cpsr, read_cpsr}

pub read_register-written :
    (p : ArmCore) (a b v : ℕ)
    → a < 16
    → b < 16
    → read_register (write_register p a v) b ≡ (if a == b then ahead b v else read_register p b)
unfolding read_register write_register
read_register-written p a b v ha hb =
    rw (read_register-write_register p.reg a b v ha hb) (ground arith)

pub read_cpsr-written :
    (p : ArmCore) (a v : ℕ) → a < 16 → read_cpsr (write_register p a v) ≡ read_cpsr p
unfolding read_cpsr write_register
read_cpsr-written p a v ha = read_cpsr-write_register p.reg a v ha

pub write_register_frame :
    (p : ArmCore) (a v : ℕ)
    → ((write_register p a v).mem ≡ p.mem) × ((write_register p a v).cycle_count ≡ p.cycle_count)
unfolding write_register
write_register_frame p a v = (refl, refl)

-- The words from 32 on, and the user's program counter, stand where they stand in every mode.
pub pc-written : (p : ArmCore) (v : ℕ) → (write_register p 15 v).reg 15 ≡ v
unfolding write_register Registers.write_register Registers.register_index
pc-written p v = refl

-- A status word of the same mode leaves the sixteen registers as they are.
pub read_register-write_cpsr :
    (p : ArmCore) (c b : ℕ)
    → b < 16
    → c % 2 ^ 5 ≡ read_cpsr p % 2 ^ 5
    → read_register (write_cpsr p c) b ≡ read_register p b
unfolding read_register write_cpsr read_cpsr Registers.read_register Registers.write_cpsr
    Registers.read_cpsr
read_register-write_cpsr p c b small same = ground (
  arith,
  register_index-lt (Registers.get_mode p.reg) b small,
  get_mode-eq-mod p.reg,
  get_mode-eq-mod (Registers.write_cpsr p.reg c),
)

pub read_cpsr-write_cpsr : (p : ArmCore) (c : ℕ) → read_cpsr (write_cpsr p c) ≡ c
unfolding read_cpsr write_cpsr Registers.read_cpsr Registers.write_cpsr
read_cpsr-write_cpsr p c = ground arith
