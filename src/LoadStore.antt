-- ===== src/LoadStore.antt =====
-- arm_load_store.c: single and multiple transfers between registers and memory.
pub mod Multiple
pub mod Valid
pub mod Single
use projet_s.Common.{
  ℕ, ◌+◌, ◌-◌, ◌*◌, ◌/◌, ◌%◌, ◌^◌, ◌==◌, ◌&&◌, ◌||◌, Bool, not, if◌then◌else◌, bit_and, bit_or,
  nonzero,
}
use projet_s.Constants.{pc, undefined_instruction}
use projet_s.Outcome.{Outcome, ok, ◌>>=◌}
use projet_s.Word.{Host, u8, u16, add32, sub32, shl}
use projet_s.Util.{get_bit, get_bits}
use projet_s.Shifter.{shifter_operand}
use projet_s.Arm
use projet_s.Arm.{ArmCore}

module _ (host : Host) where
  -- The half word and the byte at the address of a `uint32_t` of the host, and the word with that
  -- part replaced.
  unfoldable pub half_of : ℕ → ℕ
  half_of val = if host.big_endian then val / 2 ^ 16 else val % 2 ^ 16

  unfoldable pub with_half : ℕ → ℕ → ℕ
  with_half val half =
      if host.big_endian then half * 2 ^ 16 + val % 2 ^ 16 else val / 2 ^ 16 * 2 ^ 16 + half

  unfoldable pub byte_of : ℕ → ℕ
  byte_of val = if host.big_endian then val / 2 ^ 24 else val % 2 ^ 8

  unfoldable pub with_byte : ℕ → ℕ → ℕ
  with_byte val byte =
      if host.big_endian then byte * 2 ^ 24 + val % 2 ^ 24 else val / 2 ^ 8 * 2 ^ 8 + byte

  -- The offset; `res *= -1` wraps.
  unfoldable pub addressing_mode : ArmCore → ℕ → ℕ
  addressing_mode p ins =
      let is_half = not (nonzero (get_bit host ins 26)) in
      let is_shift = nonzero (get_bit host ins 25) in
      let is_immed_hl = nonzero (get_bit host ins 22) in
      let res =
        if is_shift
        then (shifter_operand host p ins).0
        else if is_half
        then (if is_immed_hl
            then bit_or (shl host (get_bits host ins 11 8) 4) (get_bits host ins 3 0)
            else Arm.read_register p (get_bits host ins 3 0))
        else get_bits host ins 11 0 in
      if not (nonzero (get_bit host ins 23)) then sub32 0 res else res

  -- `val` after the read; it starts with what the stack holds.
  unfoldable pub load_value : ArmCore → ℕ → ℕ → Outcome ℕ
  unfolding half_of with_half byte_of with_byte
  load_value p ins address =
      let val = host.indeterminate in
      if nonzero (get_bit host ins 7) && nonzero (get_bit host ins 4)
      then (do (_, half) ← Arm.read_half host p address (half_of val); ok (with_half val half))
      else if nonzero (get_bit host ins 22)
      then (do (_, byte) ← Arm.read_byte p address (byte_of val); ok (with_byte val byte))
      else do (_, val) ← Arm.read_word host p address val; ok val

  unfoldable pub store_value : ArmCore → ℕ → ℕ → ℕ → Outcome (ℕ × ArmCore)
  store_value p ins address val =
      if nonzero (get_bit host ins 7) && nonzero (get_bit host ins 4)
      then Arm.write_half host p address (u16 val)
      else if nonzero (get_bit host ins 22)
      then Arm.write_byte p address (u8 val)
      else Arm.write_word host p address val

  -- A store to Rd or a load from it; with `usr` the register of the user bank.
  unfoldable pub transfer : ArmCore → ℕ → ℕ → Outcome (ℕ × ArmCore)
  unfolding load_value store_value
  transfer p ins address =
      let rd = get_bits host ins 15 12 in
      let usr = not (nonzero (get_bit host ins 24)) && nonzero (get_bit host ins 21) in
      if nonzero (get_bit host ins 20)
      then (do
        val ← load_value p ins address
        let val = if rd == pc then bit_and val 0xFFFFFFFE else val
        ok (0, if usr then Arm.write_usr_register p rd val else Arm.write_register p rd val))
      else store_value p ins address
          (if usr then Arm.read_usr_register p rd else Arm.read_register p rd)

  unfoldable pub arm_load_store : ArmCore → ℕ → Outcome (ℕ × ArmCore)
  unfolding transfer addressing_mode
  arm_load_store p ins =
      let rn = get_bits host ins 19 16 in
      let is_p = nonzero (get_bit host ins 24) in
      let is_w = nonzero (get_bit host ins 21) in
      let address = Arm.read_register p rn in
      let address = if is_p then add32 address (addressing_mode p ins) else address in
      do
        (res, p) ← transfer p ins address
        let address = if is_p then address else add32 address (addressing_mode p ins)
        ok (res, if not is_p || is_w then Arm.write_register p rn address else p)

  unfoldable pub arm_coprocessor_load_store : ArmCore → ℕ → ℕ × ArmCore
  arm_coprocessor_load_store p ins = (undefined_instruction, p)
