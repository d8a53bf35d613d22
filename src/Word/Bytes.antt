-- ===== src/Word/Bytes.antt =====
-- Bytes shifted into place and joined by `|`.
use projet_s.Common.{ℕ, ◌+◌, ◌*◌, ◌/◌, ◌%◌, ◌^◌, ◌<◌, ◌≡◌, ap, ◌∙◌, arith, bit_and, bit_or}
use projet_s.Bits.{bit_or-fields, bit_and-mask}
use projet_s.Word.{Host, shl, shr}
use projet_s.Word.Shift.{shl-eq-mul, shr-eq-div}

abbrev pub half_of_bytes : ℕ → ℕ → ℕ
half_of_bytes hi lo = hi * 2 ^ 8 + lo

abbrev pub word_of_bytes : ℕ → ℕ → ℕ → ℕ → ℕ
word_of_bytes a b c d = a * 2 ^ 24 + b * 2 ^ 16 + c * 2 ^ 8 + d

module _ (host : Host) where
  byte-shl : (a k : ℕ) → a < 2 ^ 8 → k < 25 → a * 2 ^ k < 2 ^ 32 → shl host a k ≡ a * 2 ^ k
  byte-shl a k h l fits = shl-eq-mul host a k (omega arith) ∙ omega arith

  pub join_half :
      (hi lo : ℕ) → hi < 2 ^ 8 → lo < 2 ^ 8 → bit_or (shl host hi 8) lo ≡ half_of_bytes hi lo
  join_half hi lo h l =
      rw (byte-shl hi 8 h (omega arith) (omega arith)) (bit_or-fields 8 hi lo (omega arith))

  pub join_word :
      (a b c d : ℕ)
      → a < 2 ^ 8
      → b < 2 ^ 8
      → c < 2 ^ 8
      → d < 2 ^ 8
      → bit_or (bit_or (bit_or (shl host a 24) (shl host b 16)) (shl host c 8)) d
        ≡ word_of_bytes a b c d
  join_word a b c d ha hb hc hd =
      rw
        (
          byte-shl a 24 ha (omega arith) (omega arith),
          byte-shl b 16 hb (omega arith) (omega arith),
          byte-shl c 8 hc (omega arith) (omega arith),
          bit_or-fields 24 a (b * 2 ^ 16) (omega arith),
          high,
          bit_or-fields 16 (a * 2 ^ 8 + b) (c * 2 ^ 8) (omega arith),
          middle,
          bit_or-fields 8 (a * 2 ^ 16 + b * 2 ^ 8 + c) d (omega arith),
        )
        (omega arith)
    where
      high : a * 2 ^ 24 + b * 2 ^ 16 ≡ (a * 2 ^ 8 + b) * 2 ^ 16
      high = omega arith

      middle : (a * 2 ^ 8 + b) * 2 ^ 16 + c * 2 ^ 8 ≡ (a * 2 ^ 16 + b * 2 ^ 8 + c) * 2 ^ 8
      middle = omega arith

  -- The byte of a word at a weight, as the source masks it out.
  pub byte_at-eq-mod : (x k : ℕ) → k < 32 → bit_and (shr host x k) 0xFF ≡ x / 2 ^ k % 2 ^ 8
  byte_at-eq-mod x k h =
      bit_and-mask 8 (shr host x k) ∙ ap (λ (t : ℕ). t % 2 ^ 8) (shr-eq-div host x k h)
