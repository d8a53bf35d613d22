-- ===== src/Util/Reverse.antt =====
-- The bytes of `reverse_2` and `reverse_4`.
use projet_s.Common.{ℕ, ◌/◌, ◌%◌, ◌^◌, ◌<◌, ◌≡◌, arith}
use projet_s.Bits.{bit_and-mask}
use projet_s.Word.{Host}
use projet_s.Word.Bytes.{half_of_bytes, word_of_bytes, join_half, join_word, byte_at-eq-mod}
use projet_s.Util.{reverse_2, reverse_4}

module _ (host : Host) where
  pub reverse_2-half_of_bytes :
      (x : ℕ) → reverse_2 host x ≡ half_of_bytes (x % 2 ^ 8) (x / 2 ^ 8 % 2 ^ 8)
  unfolding reverse_2
  reverse_2-half_of_bytes x =
      rw (bit_and-mask 8 x, byte_at-eq-mod host x 8 (omega arith))
        (join_half host _ _ (omega arith) (omega arith))

  pub reverse_4-word_of_bytes :
      (x : ℕ)
      → reverse_4 host x
        ≡ word_of_bytes (x % 2 ^ 8) (x / 2 ^ 8 % 2 ^ 8) (x / 2 ^ 16 % 2 ^ 8) (x / 2 ^ 24 % 2 ^ 8)
  unfolding reverse_4
  reverse_4-word_of_bytes x =
      rw
        (
          bit_and-mask 8 x,
          byte_at-eq-mod host x 8 (omega arith),
          byte_at-eq-mod host x 16 (omega arith),
          byte_at-eq-mod host x 24 (omega arith),
        )
        (join_word host _ _ _ _ (omega arith) (omega arith) (omega arith) (omega arith))

  pub reverse_2-reverse_2 : (x : ℕ) → x < 2 ^ 16 → reverse_2 host (reverse_2 host x) ≡ x
  reverse_2-reverse_2 x h =
      omega (arith, reverse_2-half_of_bytes (reverse_2 host x), reverse_2-half_of_bytes x)

  -- Turned round twice, a word is the same.
  pub reverse_4-reverse_4 : (x : ℕ) → x < 2 ^ 32 → reverse_4 host (reverse_4 host x) ≡ x
  reverse_4-reverse_4 x h =
      omega (arith, reverse_4-word_of_bytes (reverse_4 host x), reverse_4-word_of_bytes x)
