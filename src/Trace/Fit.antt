-- ===== src/Trace/Fit.antt =====
-- Calls whose arguments are in range and aligned, and the states that they keep.
use projet_s.Common.{◌<◌, ℕ, ◌%◌, ◌^◌, ◌≡◌, ◌≢◌, ◌⊎◌, List, [], ◌∷◌}
use projet_s.Arm.{ArmCore}
use projet_s.Arm.Valid.{IsValid}
use projet_s.Trace.Accesses.{
  NamesRegister, NameRegisters, fetched, register_read, usr_register_read, cpsr_read, spsr_read,
  register_written, usr_register_written, cpsr_written, spsr_written, byte_read, half_read,
  word_read, byte_written, half_written, word_written, Access,
}

-- A word, and a multiple of 4 for the program counter.
abbrev pub IsPcFit : ℕ → ℕ → Type 0
IsPcFit reg value = (reg < 16) × (value < 2 ^ 32) × ((reg ≢ 15) ⊎ (value % 4 ≡ 0))

-- The arguments of a call are words where its result depends on that, its register is one of the
-- sixteen, a read is aligned, and so is what is written to the program counter.
abbrev pub IsFit : Access → Type 0
IsFit (fetched value) = value < 2 ^ 32
IsFit (register_read reg) = reg < 16
IsFit (usr_register_read reg) = reg < 16
IsFit cpsr_read = Unit
IsFit spsr_read = Unit
IsFit (register_written reg value) = IsPcFit reg value
IsFit (usr_register_written reg value) = IsPcFit reg value
IsFit (cpsr_written value) = value < 2 ^ 32
IsFit (spsr_written value) = value < 2 ^ 32
IsFit (byte_read address value) = Unit
IsFit (half_read address value) = (address < 2 ^ 32) × (address % 2 ≡ 0)
IsFit (word_read address value) = (address < 2 ^ 32) × (address % 4 ≡ 0)
IsFit (byte_written address value) = Unit
IsFit (half_written address value) = address < 2 ^ 32
IsFit (word_written address value) = address < 2 ^ 32

abbrev pub AreFit : List Access → Type 0
AreFit [] = Unit
AreFit (a ∷ rest) = IsFit a × AreFit rest

IsFit-NamesRegister : (a : Access) → IsFit a → NamesRegister a
IsFit-NamesRegister (fetched value) fit = tt
IsFit-NamesRegister (register_read reg) fit = fit
IsFit-NamesRegister (usr_register_read reg) fit = fit
IsFit-NamesRegister cpsr_read fit = tt
IsFit-NamesRegister spsr_read fit = tt
IsFit-NamesRegister (register_written reg value) fit = fit.0
IsFit-NamesRegister (usr_register_written reg value) fit = fit.0
IsFit-NamesRegister (cpsr_written value) fit = tt
IsFit-NamesRegister (spsr_written value) fit = tt
IsFit-NamesRegister (byte_read address value) fit = tt
IsFit-NamesRegister (half_read address value) fit = tt
IsFit-NamesRegister (word_read address value) fit = tt
IsFit-NamesRegister (byte_written address value) fit = tt
IsFit-NamesRegister (half_written address value) fit = tt
IsFit-NamesRegister (word_written address value) fit = tt

pub AreFit-NameRegisters : (accesses : List Access) → AreFit accesses → NameRegisters accesses
AreFit-NameRegisters [] fit = tt
AreFit-NameRegisters (a ∷ rest) (fit, more) =
    (IsFit-NamesRegister a fit, AreFit-NameRegisters rest more)

-- A well-formed state whose program counter 4 divides.
pub record IsAligned (size : ℕ) (p : ArmCore) : Type 0 where
  pub valid : IsValid size p
  pub aligned : p.reg 15 % 4 ≡ 0
