-- ===== src/Shifter/Operand.antt =====
-- The shifts of addressing mode 1 against the bits they move.
use projet_s.Common.{
  ℕ, ◌+◌, ◌-◌, ◌*◌, ◌/◌, ◌%◌, ◌^◌, ◌≤◌, ◌<◌, ◌≡◌, refl, arith, ◌∙◌, min, true, bit_or, nonzero,
}
use projet_s.Constants.ShiftType
use projet_s.Bits.{digit, bit_and-mask, bit_or-fields, bit_or_comm}
use projet_s.Word.{Host, u8, u32, sub32}
use projet_s.Word.Shift.{shl-eq-mul, shr-eq-div}
use projet_s.Util.{get_bit}
use projet_s.Util.Fields.{get_bit-digit}
use projet_s.Util.Rotate.{digit-ror, digit-asr}
use projet_s.Shifter.{shift_value}

module _ (host : Host) (rm : ℕ) (fits : rm < 2 ^ 32) (carry : ℕ) where
  last_right : (n : ℕ) → 0 < n → n ≤ 32 → get_bit host rm (sub32 n 1) ≡ digit rm (n - 1)
  last_right n h k = rw less (get_bit-digit host rm (n - 1) (omega arith))
    where
      less : sub32 n 1 ≡ n - 1
      less = omega arith

  last_left : (n : ℕ) → 0 < n → n < 32 → get_bit host rm (sub32 32 n) ≡ digit rm (32 - n)
  last_left n h k = rw less (get_bit-digit host rm (32 - n) (omega arith))
    where
      less : sub32 32 n ≡ 32 - n
      less = omega arith

  -- By 1 to 31 places LSL multiplies and LSR divides by the power of 2 and ROR moves the bits round
  -- the word; the carry out is the last bit that left the word, for ROR the last one moved round.
  pub shift_value_lem :
      (n : ℕ)
      → 0 < n
      → n < 32
      → (shift_value host ShiftType.lsl rm n carry ≡ (u32 (rm * 2 ^ n), digit rm (32 - n)))
        × (shift_value host ShiftType.lsr rm n carry ≡ (rm / 2 ^ n, digit rm (n - 1)))
        × ((shift_value host ShiftType.ror rm n carry).1 ≡ digit rm (n - 1))
        × ((i : ℕ)
            → i < 32
            → digit (shift_value host ShiftType.ror rm n carry).0 i ≡ digit rm ((i + n) % 32))
  unfolding shift_value
  shift_value_lem n h k =
      rw
        (
          last_left n h k,
          last_right n h (omega arith),
          shl-eq-mul host rm n k,
          shr-eq-div host rm n k,
          some_places,
          byte,
        )
        (refl, refl, refl, λ i p. digit-ror host rm n i fits h k p)
    where
      some_places : nonzero n ≡ true
      some_places = ground arith

      byte : u8 n ≡ n
      byte = omega arith

  -- ASR by 2 to 32 places moves the bits one place less than it says and fills the top with the
  -- sign; the carry out is the last bit that a shift by all the places moves out.
  pub shift_value-asr :
      (n : ℕ)
      → 1 < n
      → n ≤ 32
      → ((shift_value host ShiftType.asr rm n carry).1 ≡ digit rm (n - 1))
        × ((i : ℕ)
            → i < 32
            → digit (shift_value host ShiftType.asr rm n carry).0 i
              ≡ digit rm (min (i + (n - 1)) 31))
  unfolding shift_value
  shift_value-asr n h k =
      rw (last_right n (omega arith) k, byte)
        (refl, λ i p. digit-asr host rm (n - 1) i fits (omega arith) (omega arith) p)
    where
      byte : u8 (sub32 n 1) ≡ n - 1
      byte = omega arith

  -- LSL by 0 leaves the operand and the flag C; ROR by 0 is the rotation by one place through C.
  pub shift_value_zero :
      carry < 2
      → (shift_value host ShiftType.lsl rm 0 carry ≡ (rm, carry))
        × (shift_value host ShiftType.ror rm 0 carry ≡ (carry * 2 ^ 31 + rm / 2, rm % 2))
  unfolding shift_value
  shift_value_zero h =
      rw
        (
          shl-eq-mul host rm 0 (omega arith),
          shr-eq-div host rm 1 (omega arith),
          shl-eq-mul host carry 31 (omega arith),
          bit_and-mask 1 rm,
          unmoved,
          top,
          joined,
        )
        (refl, refl)
    where
      unmoved : u32 (rm * 2 ^ 0) ≡ rm
      unmoved = omega arith

      top : u32 (carry * 2 ^ 31) ≡ carry * 2 ^ 31
      top = omega arith

      joined : bit_or (rm / 2) (carry * 2 ^ 31) ≡ carry * 2 ^ 31 + rm / 2
      joined =
          bit_or_comm 32 (rm / 2) (carry * 2 ^ 31) (omega arith) (omega arith)
          ∙ bit_or-fields 31 carry (rm / 2) (omega arith)
