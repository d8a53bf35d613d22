-- ===== src/Registers/Bank.antt =====
-- Where the banks lie in the register file.
use projet_s.Common.{
  ◌≤◌, false, ◌↔◌, ℕ, ◌%◌, ◌^◌, ◌<◌, ◌≡◌, ◌≢◌, ◌⊎◌, arith, ◌==◌, leb, ◌&&◌, ◌||◌, Bool,
  if◌then◌else◌,
}
use projet_s.Bits.{bit_and-mask}
use projet_s.Constants.{cpsr, usr, fiq, irq, svc, abt, und, sys}
use projet_s.Registers.{Registers, get_mode, mode_offset, register_index}

pub get_mode-eq-mod : (r : Registers) → get_mode r ≡ r cpsr % 2 ^ 5
unfolding get_mode
get_mode-eq-mod r = bit_and-mask 5 (r cpsr)

pub get_mode-lt : (r : Registers) → get_mode r < 32
get_mode-lt r = omega (arith, get_mode-eq-mod r)

-- The seven modes of the architecture.
abbrev pub IsMode : ℕ → Type 0
IsMode m = (m ≡ usr) ⊎ (m ≡ fiq) ⊎ (m ≡ irq) ⊎ (m ≡ svc) ⊎ (m ≡ abt) ⊎ (m ≡ und) ⊎ (m ≡ sys)

-- USR and SYS share all their registers.
abbrev pub bank : ℕ → ℕ
bank m = if m == sys then usr else m

-- The registers that a mode has of its own.
abbrev pub is_banked : ℕ → ℕ → Bool
is_banked m reg = reg == 13 || reg == 14 || (leb 8 reg && leb reg 12 && m == fiq)

-- Every access stays inside the 37 words, and never meets the CPSR.
pub register_index-lt :
    (m reg : ℕ) → reg < 16 → (register_index m reg < 32) × (register_index m reg ≢ cpsr)
unfolding register_index mode_offset
register_index-lt m reg h = ground arith

-- Within a mode, different registers are different words.
pub register_index-injective :
    (m a b : ℕ) → a < 16 → b < 16 → register_index m a ≡ register_index m b → a ≡ b
unfolding register_index mode_offset
register_index-injective m a b ha hb e = ground arith

offset-injective :
    (m m' : ℕ) → IsMode m → IsMode m' → mode_offset m ≡ mode_offset m' → bank m ≡ bank m'
unfolding mode_offset
offset-injective m m' p q e = ground arith

-- Two modes meet in a word exactly when it is the same register, and they have one bank or
-- neither has that register for itself.
pub register_index-eq_iff :
    (m m' a b : ℕ)
    → IsMode m
    → IsMode m'
    → a < 16
    → b < 16
    → (register_index m a ≡ register_index m' b)
      ↔ ((a ≡ b) × ((bank m ≡ bank m') ⊎ ((is_banked m a ≡ false) × (is_banked m' a ≡ false))))
unfolding register_index mode_offset
register_index-eq_iff m m' a b p q ha hb = ground arith

-- r0 to r7 are the same words in every mode, and the stack pointer and what follows lie above.
pub register_index-low : (m a : ℕ) → a < 8 → register_index m a ≡ a
unfolding register_index
register_index-low m a h = ground arith

pub register_index-ge : (m a : ℕ) → 13 ≤ a → 13 ≤ register_index m a
unfolding register_index
register_index-ge m a h = ground arith
