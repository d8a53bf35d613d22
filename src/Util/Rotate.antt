-- ===== src/Util/Rotate.antt =====
-- The digits of a word after `ror` and `asr`.
use projet_s.Common.{
  ℕ, ◌+◌, ◌-◌, ◌*◌, ◌%◌, ◌^◌, ◌≤◌, ◌<◌, ◌≡◌, ◌∙◌, arith, min, if◌then◌else◌, nonzero,
}
use projet_s.Bits.{
  digit-all_ones, digit-zero, bit_or_self, digit, digit-lt, digit-bit_or, digit-div, digit-mul_low,
  digit-mul_high, digit-mod, digit-ge, bit_or-lt,
}
use projet_s.Word.{Host, MasksCounts, shl, shr, all_ones, sub32}
use projet_s.Word.Shift.{shl-eq-mul, shr-eq-div, shl-lt, shr-lt, shl-masked}
use projet_s.Util.{get_bit, asr, ror}
use projet_s.Util.Fields.{get_bit-digit}

module _ (host : Host) where
  digit-shr : (v n i : ℕ) → n < 32 → digit (shr host v n) i ≡ digit v (n + i)
  digit-shr v n i h = rw (shr-eq-div host v n h) (digit-div n v i)

  digit-shl_low : (v n i : ℕ) → n < 32 → i < n → digit (shl host v n) i ≡ 0
  digit-shl_low v n i h k =
      rw (shl-eq-mul host v n h) (digit-mod 32 (v * 2 ^ n) i (omega arith) ∙ digit-mul_low n v i k)

  digit-shl_high : (v n i : ℕ) → n < 32 → n ≤ i → i < 32 → digit (shl host v n) i ≡ digit v (i - n)
  digit-shl_high v n i h k l =
      rw (shl-eq-mul host v n h) (digit-mod 32 (v * 2 ^ n) i l ∙ digit-mul_high n v i k)

  pub ror-lt : (v r : ℕ) → v < 2 ^ 32 → ror host v r < 2 ^ 32
  unfolding ror
  ror-lt v r h = bit_or-lt 32 _ _ (shr-lt host v r h) (shl-lt host v (sub32 32 r))

  pub asr-lt : (v s : ℕ) → v < 2 ^ 32 → asr host v s < 2 ^ 32
  unfolding asr
  asr-lt v s h =
      bit_or-lt 32 _ _ (shr-lt host v s h) (ground (arith, shl-lt host all_ones (sub32 32 s)))

  -- A rotation by 1 to 31 places moves digit i + r to place i, round the 32 places.
  pub digit-ror :
      (v r i : ℕ)
      → v < 2 ^ 32
      → 0 < r
      → r < 32
      → i < 32
      → digit (ror host v r) i ≡ digit v ((i + r) % 32)
  unfolding ror
  digit-ror v r i fits pos h k = rw count (
      ground (
        arith,
        digit-bit_or (shr host v r) (shl host v (32 - r)) i,
        digit-shr v r i h,
        digit-shl_low v (32 - r) i (omega arith),
        digit-shl_high v (32 - r) i (omega arith),
        digit-ge 32 v (r + i) fits,
      ))
    where
      count : sub32 32 r ≡ 32 - r
      count = omega arith

  -- Shifting right by 1 to 31 places repeats the sign digit in the places that fall free.
  pub digit-asr :
      (v s i : ℕ)
      → v < 2 ^ 32
      → 0 < s
      → s < 32
      → i < 32
      → digit (asr host v s) i ≡ digit v (min (i + s) 31)
  unfolding asr
  digit-asr v s i fits pos h k = rw count (
      ground (
        arith,
        digit-bit_or (shr host v s)
            (if nonzero (get_bit host v 31) then shl host all_ones (32 - s) else 0) i,
        get_bit-digit host v 31 (omega arith),
        digit-lt v 31,
        digit-shr v s i h,
        digit-shl_low all_ones (32 - s) i (omega arith),
        digit-shl_high all_ones (32 - s) i (omega arith),
        digit-all_ones 32 (i - (32 - s)),
        digit-ge 32 v (s + i) fits,
        digit-zero i,
      ))
    where
      count : sub32 32 s ≡ 32 - s
      count = omega arith

  -- On a processor that masks counts, a rotation by 0 changes nothing.
  pub ror_zero : (v : ℕ) → MasksCounts host → v < 2 ^ 32 → ror host v 0 ≡ v
  unfolding ror
  ror_zero v m fits = rw (low, high) (bit_or_self 32 v fits)
    where
      low : shr host v 0 ≡ v
      low = omega (arith, shr-eq-div host v 0 (omega arith))

      high : shl host v 32 ≡ v
      high = omega (arith, shl-masked host v 32 m (omega arith))
