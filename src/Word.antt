-- ===== src/Word.antt =====
-- C's unsigned words, and what C leaves to the compiler and the machine.
pub mod Shift
pub mod Bytes
pub mod Masks
pub mod Signed
use projet_s.Common.{ℕ, ◌+◌, ◌-◌, ◌*◌, ◌/◌, ◌%◌, ◌^◌, ◌≤◌, ◌≡◌, Bool, true, false, bit_and, ltb}

abbrev pub u8 : ℕ → ℕ
u8 n = n % 2 ^ 8

abbrev pub u16 : ℕ → ℕ
u16 n = n % 2 ^ 16

abbrev pub u32 : ℕ → ℕ
u32 n = n % 2 ^ 32

abbrev pub add32 : ℕ → ℕ → ℕ
add32 a b = u32 (a + b)

-- `-` on ℕ stops at 0, so the modulus is added first.
abbrev pub sub32 : ℕ → ℕ → ℕ
sub32 a b = u32 (a + 2 ^ 32 - b)

-- ~x on a word.
abbrev pub not32 : ℕ → ℕ
not32 x = 2 ^ 32 - 1 - x

-- ~0, the pattern of the `int` -1.
abbrev pub all_ones : ℕ
all_ones = 2 ^ 32 - 1

-- The results that C does not define: a shift whose count is no less than the width (the count is
-- the 32-bit pattern of the operand), the byte order of the host, and the value that an
-- uninitialised `uint32_t` holds; and whether the build defines BIG_ENDIAN_SIMULATOR, as Makefile.am
-- does.
pub record Host : Type 0 where
  pub shl_over : ℕ → ℕ → ℕ
  pub shr_over : ℕ → ℕ → ℕ
  pub big_endian : Bool
  pub indeterminate : ℕ
  pub big_endian_simulator : Bool

-- The processors of the x86 family use the five low bits of a shift's count.
pub record MasksCounts (host : Host) : Type 0 where
  pub shl_masked : (v n : ℕ) → 32 ≤ n → host.shl_over v n ≡ v * 2 ^ (n % 32)
  pub shr_masked : (v n : ℕ) → 32 ≤ n → host.shr_over v n ≡ v / 2 ^ (n % 32)

-- (x & (m << k)) >> k, a field of an instruction.
abbrev pub masked : ℕ → ℕ → ℕ → ℕ
masked x m k = bit_and x (m * 2 ^ k) / 2 ^ k

module _ (host : Host) where
  -- v << n and v >> n on a `uint32_t`. The cases of an `elim` are computed only when they are taken.
  unfoldable pub shl : ℕ → ℕ → ℕ
  shl v n = elim (ltb n 32) [ true ↦ u32 (v * 2 ^ n) | false ↦ u32 (host.shl_over v n) ]

  unfoldable pub shr : ℕ → ℕ → ℕ
  shr v n = elim (ltb n 32) [ true ↦ v / 2 ^ n | false ↦ u32 (host.shr_over v n) ]
