-- ===== src/Util/Fields.antt =====
-- `get_bit` and `get_bits` as quotients and remainders.
use native.Mathlib.Nat.{one-le-pow, pow-le-pow_right, mod-eq_of_lt, mul-add-mod_self_right}
use projet_s.Common.{ℕ, ◌+◌, ◌-◌, ◌*◌, ◌/◌, ◌%◌, ◌^◌, ◌≤◌, ◌<◌, ◌≡◌, ap, ◌∙◌, arith}
use projet_s.Bits.{digit, digit-eq-mod, bit_and-mask}
use projet_s.Word.{Host, shr}
use projet_s.Word.Shift.{shl-eq-mul, shr-eq-div}
use projet_s.Util.{get_bit, get_bits, high_mask}

module _ (host : Host) where
  -- The test of a bit never gives more than 1, whatever the count.
  pub get_bit-lt : (x i : ℕ) → get_bit host x i < 2
  unfolding get_bit
  get_bit-lt x i = omega (arith, bit_and-mask 1 (shr host x i))

  pub get_bit-eq-mod : (x i : ℕ) → i < 32 → get_bit host x i ≡ x / 2 ^ i % 2
  unfolding get_bit
  get_bit-eq-mod x i h =
      bit_and-mask 1 (shr host x i) ∙ ap (λ (t : ℕ). t % 2) (shr-eq-div host x i h)

  -- `get_bit` reads the digit of that weight.
  pub get_bit-digit : (x i : ℕ) → i < 32 → get_bit host x i ≡ digit x i
  get_bit-digit x i h = omega (arith, get_bit-eq-mod x i h, digit-eq-mod x i)

  pub high_mask-eq-sub : (k : ℕ) → k < 32 → high_mask host k ≡ 2 ^ 32 - 2 ^ k
  unfolding high_mask
  high_mask-eq-sub k h =
      shl-eq-mul host (2 ^ 32 - 1) k h
      ∙ ap (λ (t : ℕ). t % 2 ^ 32) split
      ∙ mul-add-mod_self_right (2 ^ k - 1) (2 ^ 32) (2 ^ 32 - 2 ^ k)
      ∙ mod-eq_of_lt (omega (arith, positive))
    where
      positive : 0 < 2 ^ k
      positive = one-le-pow k 2 (omega arith)

      below : 2 ^ k ≤ 2 ^ 32
      below = pow-le-pow_right {n = 2} (omega arith) {j = 32} (omega arith)

      split : (2 ^ 32 - 1) * 2 ^ k ≡ (2 ^ k - 1) * 2 ^ 32 + (2 ^ 32 - 2 ^ k)
      split = omega (arith, positive, below)

  complement : (k : ℕ) → k < 32 → 2 ^ 32 - 1 - (2 ^ 32 - 2 ^ k) ≡ 2 ^ k - 1
  complement k h =
      let below : 2 ^ k ≤ 2 ^ 32 = pow-le-pow_right {n = 2} (omega arith) {j = 32} (omega arith) in
      omega arith

  -- `get_bits x h l` is the number in the digits l to h.
  pub get_bits-eq-mod :
      (x h l : ℕ) → l ≤ h → h < 31 → get_bits host x h l ≡ x / 2 ^ l % 2 ^ (h - l + 1)
  unfolding get_bits
  get_bits-eq-mod x h l p q =
      rw
        (
          high_mask-eq-sub (h - l + 1) (omega arith),
          shr-eq-div host x l (omega arith),
          complement (h - l + 1) (omega arith),
        )
        (bit_and-mask (h - l + 1) (x / 2 ^ l))
