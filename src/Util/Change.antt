-- ===== src/Util/Change.antt =====
-- The digits of a word after `set_bit`, `clr_bit` and `change_bit`.
use native.Mathlib.Nat.{pow-le-pow_right}
use projet_s.Common.{ℕ, ◌-◌, ◌^◌, ◌≤◌, ◌<◌, ◌≡◌, ◌∙◌, arith, ◌==◌, if◌then◌else◌, to_bit, nonzero}
use projet_s.Bits.{
  digit, digit-lt, digit-bit_and, digit-bit_or, digit-complement, digit-two-pow, bit_or-lt,
  bit_and-le,
}
use projet_s.Word.{Host, not32, shl}
use projet_s.Word.Shift.{shl-eq-mul}
use projet_s.Util.{set_bit, clr_bit, change_bit}

two-pow-lt : (n : ℕ) → n < 32 → 2 ^ n < 2 ^ 32
two-pow-lt n h =
    let below : 2 ^ n ≤ 2 ^ 31 = pow-le-pow_right {n = 2} (omega arith) {j = 31} (omega arith) in
    omega arith

module _ (host : Host) where
  one-shl : (n : ℕ) → n < 32 → shl host 1 n ≡ 2 ^ n
  one-shl n h = shl-eq-mul host 1 n h ∙ omega (arith, two-pow-lt n h)

  pub set_bit-lt : (s n : ℕ) → s < 2 ^ 32 → n < 32 → set_bit host s n < 2 ^ 32
  unfolding set_bit
  set_bit-lt s n fits h = rw (one-shl n h) (bit_or-lt 32 s (2 ^ n) fits (two-pow-lt n h))

  pub clr_bit-le : (s n : ℕ) → s < 2 ^ 32 → clr_bit host s n ≤ s
  unfolding clr_bit
  clr_bit-le s n fits = bit_and-le 32 s (not32 (shl host 1 n)) fits

  pub change_bit-lt : (s n val : ℕ) → s < 2 ^ 32 → n < 32 → change_bit host s n val < 2 ^ 32
  unfolding change_bit
  change_bit-lt s n val fits h = ground (arith, set_bit-lt s n fits h, clr_bit-le s n fits)

  digit-set_bit :
      (s n i : ℕ) → n < 32 → digit (set_bit host s n) i ≡ (if i == n then 1 else digit s i)
  unfolding set_bit
  digit-set_bit s n i h =
      rw (one-shl n h) (ground (arith, digit-bit_or s (2 ^ n) i, digit-two-pow n i, digit-lt s i))

  digit-clr_bit :
      (s n i : ℕ) → n < 32 → i < 32 → digit (clr_bit host s n) i ≡ (if i == n then 0 else digit s i)
  unfolding clr_bit
  digit-clr_bit s n i h k = rw (one-shl n h) (
      ground (
        arith,
        digit-bit_and s (2 ^ 32 - 1 - 2 ^ n) i,
        digit-complement 32 (2 ^ n) i (two-pow-lt n h) k,
        digit-two-pow n i,
        digit-lt s i,
      ))

  -- Digit n becomes 1 if `val` is not 0, and 0 if it is; the others are kept.
  pub digit-change_bit :
      (s n val i : ℕ)
      → n < 32
      → i < 32
      → digit (change_bit host s n val) i ≡ (if i == n then to_bit (nonzero val) else digit s i)
  unfolding change_bit
  digit-change_bit s n val i h k = ground (arith, digit-set_bit s n i h, digit-clr_bit s n i h k)
