-- ===== src/Util.antt =====
-- util.h and util.c: single bits, bit fields, byte reversal, arithmetic shift and rotation.
pub mod Fields
pub mod Change
pub mod Rotate
pub mod Reverse
use projet_s.Common.{ℕ, ◌+◌, ◌-◌, bit_and, bit_or, to_bit, nonzero, if◌then◌else◌}
use projet_s.Word.{Host, not32, sub32, all_ones, shl, shr}

module _ (host : Host) where
  unfoldable pub get_bit : ℕ → ℕ → ℕ
  get_bit x i = bit_and (shr host x i) 1

  unfoldable pub set_bit : ℕ → ℕ → ℕ
  set_bit x i = bit_or x (shl host 1 i)

  unfoldable pub clr_bit : ℕ → ℕ → ℕ
  clr_bit x i = bit_and x (not32 (shl host 1 i))

  -- The mask (~0 >> k) << k: `>>` on the `int` -1 is arithmetic, and leaves -1.
  unfoldable pub high_mask : ℕ → ℕ
  high_mask k = shl host all_ones k

  unfoldable pub get_bits : ℕ → ℕ → ℕ → ℕ
  get_bits x h l = bit_and (shr host x l) (not32 (high_mask (h - l + 1)))

  unfoldable pub set_bits : ℕ → ℕ → ℕ → ℕ → ℕ
  set_bits x h l bits =
      bit_or (bit_or (bit_and x (not32 (high_mask l))) (bit_and x (high_mask (h + 1))))
        (shl host bits l)

  unfoldable pub reverse_2 : ℕ → ℕ
  reverse_2 x = bit_or (shl host (bit_and x 0xFF) 8) (bit_and (shr host x 8) 0xFF)

  unfoldable pub reverse_4 : ℕ → ℕ
  reverse_4 x =
      bit_or
        (bit_or (bit_or (shl host (bit_and x 0xFF) 24) (shl host (bit_and (shr host x 8) 0xFF) 16))
          (shl host (bit_and (shr host x 16) 0xFF) 8))
        (bit_and (shr host x 24) 0xFF)

  -- `shift` is a `uint8_t`; 32 - shift is an `int`, taken here as its 32-bit pattern.
  unfoldable pub asr : ℕ → ℕ → ℕ
  asr value shift =
      bit_or (shr host value shift)
        (if nonzero (get_bit value 31) then shl host all_ones (sub32 32 shift) else 0)

  unfoldable pub ror : ℕ → ℕ → ℕ
  ror value rotation = bit_or (shr host value rotation) (shl host value (sub32 32 rotation))

  unfoldable pub is_big_endian : ℕ
  is_big_endian = to_bit host.big_endian

  unfoldable pub change_bit : ℕ → ℕ → ℕ → ℕ
  change_bit s n val = if nonzero val then set_bit s n else clr_bit s n
