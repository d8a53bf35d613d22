-- ===== src/DataProcessing.antt =====
-- arm_data_processing.c.
pub mod Valid
pub mod Flags
pub mod Compare
pub mod Result
pub mod Destination
pub mod Test
pub mod Return
pub mod Plain
pub mod Long
use projet_s.Common.{
  ℕ, ◌+◌, ◌-◌, ◌*◌, ◌/◌, ◌^◌, ◌==◌, ◌&&◌, ◌||◌, Bool, not, leb, if◌then◌else◌, bit_and, bit_or,
  bit_xor, nonzero, to_bit,
}
use projet_s.Constants.{pc, flag_n, flag_z, flag_c, flag_v}
use projet_s.Constants.Opcode
use projet_s.Word.{Host, add32, sub32, not32, masked, shr}
use projet_s.Util.{get_bit, change_bit, ror}
use projet_s.Arm
use projet_s.Arm.{ArmCore}
use projet_s.Branch.{arm_miscellaneous}
use projet_s.Shifter.{shifter_operand}

-- The value of the operation on Rn, the shifter's operand and the carry. Four bits leave no other
-- operation; `otherwise` is what an uninitialised `Res` holds.
unfoldable pub operation : ℕ → ℕ → ℕ → ℕ → ℕ → ℕ
operation opcode rn shifter carry otherwise =
    if opcode == Opcode.and
    then bit_and rn shifter
    else if opcode == Opcode.eor
    then bit_xor rn shifter
    else if opcode == Opcode.sub
    then sub32 rn shifter
    else if opcode == Opcode.rsb
    then sub32 shifter rn
    else if opcode == Opcode.add
    then add32 rn shifter
    else if opcode == Opcode.adc
    then add32 (add32 rn shifter) carry
    else if opcode == Opcode.sbc
    then sub32 (sub32 rn shifter) (1 - carry)
    else if opcode == Opcode.rsc
    then sub32 (sub32 shifter rn) (1 - carry)
    else if opcode == Opcode.tst
    then bit_and rn shifter
    else if opcode == Opcode.teq
    then bit_xor rn shifter
    else if opcode == Opcode.cmp
    then sub32 rn shifter
    else if opcode == Opcode.cmn
    then add32 rn shifter
    else if opcode == Opcode.orr
    then bit_or rn shifter
    else if opcode == Opcode.mov
    then shifter
    else if opcode == Opcode.bic
    then bit_and rn (not32 shifter)
    else if opcode == Opcode.mvn
    then not32 shifter
    else otherwise

-- The operations that write C and V from their result.
unfoldable pub is_arithmetic : ℕ → Bool
is_arithmetic opcode =
    leb Opcode.sub opcode
    && leb opcode Opcode.cmn
    && not (opcode == Opcode.tst)
    && not (opcode == Opcode.teq)

unfoldable pub is_subtraction : ℕ → Bool
is_subtraction opcode =
    opcode == Opcode.sub
    || opcode == Opcode.rsb
    || opcode == Opcode.sbc
    || opcode == Opcode.rsc
    || opcode == Opcode.cmp

-- TST, TEQ, CMP and CMN without the status bit are the status register moves.
unfoldable pub is_test : ℕ → Bool
is_test opcode =
    opcode == Opcode.tst || opcode == Opcode.teq || opcode == Opcode.cmp || opcode == Opcode.cmn

module _ (host : Host) where
  -- `Value_Shifter` after the carry has been added to it or taken from it for the flags.
  unfoldable pub carried : ℕ → ℕ → ℕ → ℕ
  carried opcode shifter carry =
      let shifter = if opcode == Opcode.adc && nonzero carry then add32 shifter 1 else shifter in
      if (opcode == Opcode.sbc || opcode == Opcode.rsb) && not (nonzero carry)
      then sub32 shifter 1
      else shifter

  -- The new status word: `a`, `b` and `r` are the signs of the operands and of the result.
  unfoldable pub status : ℕ → ℕ → ℕ → ℕ → ℕ → ℕ → ℕ
  status opcode cpsr rn shifter res carry_out =
      let a = get_bit host rn 31 in
      let b =
        if nonzero rn && is_subtraction opcode
        then get_bit host (not32 shifter) 31
        else get_bit host shifter 31 in
      let r = get_bit host res 31 in
      let cpsr = change_bit host cpsr flag_n r in
      let cpsr = change_bit host cpsr flag_z (to_bit (res == 0)) in
      let cpsr = change_bit host cpsr flag_c carry_out in
      if is_arithmetic opcode
      then (let carry =
            nonzero carry_out || (nonzero a && nonzero b) || (not (nonzero r) && not (a == b)) in
          let cpsr = change_bit host cpsr flag_c (to_bit carry) in
          change_bit host cpsr flag_v (to_bit (a == b && not (b == r))))
      else cpsr

  -- The second operand and the carry out of the shifter.
  unfoldable pub operand : ArmCore → ℕ → ℕ × ℕ
  operand p ins =
      if nonzero (masked ins 0b1 25)
      then (
        ror host (bit_and ins 0xFF) (bit_and (shr host ins 8) 0xF * 2),
        get_bit host (Arm.read_cpsr p) flag_c,
      )
      else shifter_operand host p ins

  -- The flags, if the instruction has the status bit.
  unfoldable pub set_flags : ArmCore → ℕ → ℕ → ℕ → ℕ → ℕ → ℕ → ArmCore
  unfolding status carried
  set_flags p opcode rd rn shifter res carry_out =
      if rd == pc && Arm.current_mode_has_spsr p
      then Arm.write_cpsr p (Arm.read_spsr p)
      else (let cpsr = Arm.read_cpsr p in
          let shifter = carried opcode shifter (get_bit host cpsr flag_c) in
          Arm.write_cpsr p (status opcode cpsr rn shifter res carry_out))

  unfoldable pub arm_data_processing : ArmCore → ℕ → ℕ × ArmCore
  unfolding operation operand set_flags
  arm_data_processing p ins =
      let opcode = masked ins 0b1111 21 in
      let rn = Arm.read_register p (masked ins 0b1111 16) in
      let rd = masked ins 0b1111 12 in
      let (shifter, carry_out) = operand p ins in
      let carry = get_bit host (Arm.read_cpsr p) flag_c in
      let p =
        if is_test opcode && not (nonzero (get_bit host ins 20))
        then (arm_miscellaneous host p ins).1
        else p in
      let res = operation opcode rn shifter carry host.indeterminate in
      let p = if not (masked ins 0b11 23 == 0b10) then Arm.write_register p rd res else p in
      let p =
        if nonzero (masked ins 0b1 20) then set_flags p opcode rd rn shifter res carry_out else p in
      (0, p)
