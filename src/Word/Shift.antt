-- ===== src/Word/Shift.antt =====
-- Shifts on either side of the width.
use native.Mathlib.Nat.{div-le_self}
use projet_s.Common.{ℕ, ◌*◌, ◌/◌, ◌%◌, ◌^◌, ◌≤◌, ◌<◌, ◌≡◌, arith}
use projet_s.Word.{Host, MasksCounts, u32, shl, shr}

module _ (host : Host) where
  pub shl-lt : (v n : ℕ) → shl host v n < 2 ^ 32
  unfolding shl
  shl-lt v n = ground arith

  pub shr-lt : (v n : ℕ) → v < 2 ^ 32 → shr host v n < 2 ^ 32
  unfolding shr
  shr-lt v n fits = ground (arith, div-le_self v (2 ^ n))

  pub shl-eq-mul : (v n : ℕ) → n < 32 → shl host v n ≡ u32 (v * 2 ^ n)
  unfolding shl
  shl-eq-mul v n h = ground arith

  pub shr-eq-div : (v n : ℕ) → n < 32 → shr host v n ≡ v / 2 ^ n
  unfolding shr
  shr-eq-div v n h = ground arith

  pub shl-masked : (v n : ℕ) → MasksCounts host → 32 ≤ n → shl host v n ≡ u32 (v * 2 ^ (n % 32))
  unfolding shl
  shl-masked v n m h = ground (arith, m.shl_masked v n h)

  pub shr-masked :
      (v n : ℕ) → MasksCounts host → v < 2 ^ 32 → 32 ≤ n → shr host v n ≡ v / 2 ^ (n % 32)
  unfolding shr
  shr-masked v n m fits h = ground (arith, m.shr_masked v n h, div-le_self v (2 ^ (n % 32)))
