-- ===== src/DataProcessing/Flags.antt =====
-- The flags that the arithmetic operations set.
use projet_s.Word.Masks.{masked-eq-mod}
use projet_s.Common.{
  both_ways, ℕ, ◌<◌, ◌≡◌, ◌≢◌, refl, sym, ap, arith, ◌∙◌, ◌==◌, ◌&&◌, ◌||◌, not, Bool, true, false,
  if◌then◌else◌, to_bit, nonzero,
}
use projet_s.Word.{masked, not32, Host}
use projet_s.Bits.{digit, digit-eq-mod, digit-lt}
use projet_s.Util.{get_bit, change_bit}
use projet_s.Util.Fields.{get_bit-digit}
use projet_s.Util.Change.{digit-change_bit}
use projet_s.DataProcessing.{status, is_arithmetic, is_subtraction}

-- The flag at place i of a status word.
abbrev pub flag : ℕ → ℕ → Bool
flag s i = nonzero (masked s 0b1 i)

pub flag-digit : (s i : ℕ) → flag s i ≡ nonzero (digit s i)
flag-digit s i = ap nonzero (masked-eq-mod 1 i s ∙ sym (digit-eq-mod s i))

nonzero-to_bit : (b : Bool) → nonzero (to_bit b) ≡ b
nonzero-to_bit true = refl
nonzero-to_bit false = refl

to_bit-nonzero : (b : Bool) → to_bit (nonzero (to_bit b)) ≡ to_bit b
to_bit-nonzero b = ap to_bit (nonzero-to_bit b)

pub bit-nonzero : (n : ℕ) → n < 2 → to_bit (nonzero n) ≡ n
bit-nonzero n h = ground arith

module _ (host : Host) (cpsr n z c : ℕ) where
  -- The status word after the flags N, Z and C of a result.
  abbrev result_flags : ℕ
  result_flags = change_bit host (change_bit host (change_bit host cpsr 31 n) 30 z) 29 c

  unchanged : (s m v i : ℕ) → m < 32 → i < 32 → i ≢ m → digit (change_bit host s m v) i ≡ digit s i
  unchanged s m v i p q ne = digit-change_bit host s m v i p q ∙ ground arith

  result_n : digit result_flags 31 ≡ to_bit (nonzero n)
  result_n =
      unchanged (change_bit host (change_bit host cpsr 31 n) 30 z) 29 c 31 (omega arith)
        (omega arith) (omega arith)
      ∙ unchanged (change_bit host cpsr 31 n) 30 z 31 (omega arith) (omega arith) (omega arith)
      ∙ digit-change_bit host cpsr 31 n 31 (omega arith) (omega arith)

  result_z : digit result_flags 30 ≡ to_bit (nonzero z)
  result_z =
      unchanged (change_bit host (change_bit host cpsr 31 n) 30 z) 29 c 30 (omega arith)
        (omega arith) (omega arith)
      ∙ digit-change_bit host (change_bit host cpsr 31 n) 30 z 30 (omega arith) (omega arith)

  result_c : digit result_flags 29 ≡ to_bit (nonzero c)
  result_c =
      digit-change_bit host (change_bit host (change_bit host cpsr 31 n) 30 z) 29 c 29 (omega arith)
        (omega arith)

  result_below : (i : ℕ) → i < 29 → digit result_flags i ≡ digit cpsr i
  result_below i h =
      unchanged (change_bit host (change_bit host cpsr 31 n) 30 z) 29 c i (omega arith)
        (omega arith) (omega arith)
      ∙ unchanged (change_bit host cpsr 31 n) 30 z i (omega arith) (omega arith) (omega arith)
      ∙ unchanged cpsr 31 n i (omega arith) (omega arith) (omega arith)

  module _ (carry overflow : ℕ) where
    -- The status word after C and V of an arithmetic operation.
    abbrev arithmetic_flags : ℕ
    arithmetic_flags = change_bit host (change_bit host result_flags 29 carry) 28 overflow

    arithmetic_v : digit arithmetic_flags 28 ≡ to_bit (nonzero overflow)
    arithmetic_v =
        digit-change_bit host (change_bit host result_flags 29 carry) 28 overflow 28 (omega arith)
          (omega arith)

    arithmetic_c : digit arithmetic_flags 29 ≡ to_bit (nonzero carry)
    arithmetic_c =
        unchanged (change_bit host result_flags 29 carry) 28 overflow 29 (omega arith) (omega arith)
          (omega arith)
        ∙ digit-change_bit host result_flags 29 carry 29 (omega arith) (omega arith)

    arithmetic_else :
        (i : ℕ) → i < 32 → i ≢ 28 → i ≢ 29 → digit arithmetic_flags i ≡ digit result_flags i
    arithmetic_else i h p q =
        unchanged (change_bit host result_flags 29 carry) 28 overflow i (omega arith) h p
        ∙ unchanged result_flags 29 carry i (omega arith) h q

module _ (host : Host) (opcode cpsr rn shifter res carry_out : ℕ) where
  abbrev after : ℕ
  after = status host opcode cpsr rn shifter res carry_out

  -- The sign that stands for the second operand.
  abbrev second_sign : ℕ
  second_sign =
      if nonzero rn && is_subtraction opcode then digit (not32 shifter) 31 else digit shifter 31

  abbrev carry : Bool
  carry =
      nonzero carry_out
      || (nonzero (digit rn 31) && nonzero second_sign)
      || (not (nonzero (digit res 31)) && not (digit rn 31 == second_sign))

  abbrev overflow : Bool
  overflow = digit rn 31 == second_sign && not (second_sign == digit res 31)

  signs :
      (get_bit host rn 31 ≡ digit rn 31)
      × (get_bit host res 31 ≡ digit res 31)
      × (get_bit host shifter 31 ≡ digit shifter 31)
      × (get_bit host (not32 shifter) 31 ≡ digit (not32 shifter) 31)
  signs = (
    get_bit-digit host rn 31 (omega arith),
    get_bit-digit host res 31 (omega arith),
    get_bit-digit host shifter 31 (omega arith),
    get_bit-digit host (not32 shifter) 31 (omega arith),
  )

  abbrev written : ℕ
  written =
      arithmetic_flags host cpsr (digit res 31) (to_bit (res == 0)) carry_out (to_bit carry)
        (to_bit overflow)

  status-written : is_arithmetic opcode ≡ true → after ≡ written
  unfolding status
  status-written kind = rw (kind, signs.0, signs.1, signs.2, signs.3)

  digit-written :
      (digit written 31 ≡ digit res 31)
      × (digit written 30 ≡ to_bit (res == 0))
      × (digit written 29 ≡ to_bit carry)
      × (digit written 28 ≡ to_bit overflow)
      × ((i : ℕ) → i < 28 → digit written i ≡ digit cpsr i)
  digit-written =
      let n = digit res 31 in
      let z = to_bit (res == 0) in
      let other = arithmetic_else host cpsr n z carry_out (to_bit carry) (to_bit overflow) in
      (
        other 31 (omega arith) (omega arith) (omega arith)
            ∙ result_n host cpsr n z carry_out
            ∙ bit-nonzero n (digit-lt res 31),
        other 30 (omega arith) (omega arith) (omega arith)
            ∙ result_z host cpsr n z carry_out
            ∙ to_bit-nonzero (res == 0),
        arithmetic_c host cpsr n z carry_out (to_bit carry) (to_bit overflow)
            ∙ to_bit-nonzero carry,
        arithmetic_v host cpsr n z carry_out (to_bit carry) (to_bit overflow)
            ∙ to_bit-nonzero overflow,
        λ i h.
            other i (omega arith) (omega arith) (omega arith)
            ∙ result_below host cpsr n z carry_out i (omega arith),
      )

  -- An arithmetic operation writes the four flags and keeps the rest of the status word.
  pub status-arithmetic :
      is_arithmetic opcode ≡ true
      → (flag after 31 ≡ nonzero (digit res 31))
        × (flag after 30 ≡ (res == 0))
        × (flag after 29 ≡ carry)
        × (flag after 28 ≡ overflow)
        × ((i : ℕ) → i < 28 → digit after i ≡ digit cpsr i)
  status-arithmetic kind =
      let d = digit-written in
      rw (status-written kind) (
        flag-digit written 31 ∙ ap nonzero d.0,
        flag-digit written 30 ∙ ap nonzero d.1 ∙ nonzero-to_bit (res == 0),
        flag-digit written 29 ∙ ap nonzero d.2 ∙ nonzero-to_bit carry,
        flag-digit written 28 ∙ ap nonzero d.3 ∙ nonzero-to_bit overflow,
        d.4,
      )

  status-kept :
      is_arithmetic opcode ≡ false
      → after ≡ result_flags host cpsr (digit res 31) (to_bit (res == 0)) carry_out
  unfolding status
  status-kept kind = rw (kind, signs.1) refl

  status_other :
      is_arithmetic opcode ≡ false
      → (flag after 31 ≡ nonzero (digit res 31))
        × (flag after 30 ≡ (res == 0))
        × ((i : ℕ) → i < 28 → digit after i ≡ digit cpsr i)
  status_other kind =
      let n = digit res 31 in
      let z = to_bit (res == 0) in
      let kept = result_flags host cpsr n z carry_out in
      rw (status-kept kind) (
        flag-digit kept 31
            ∙ ap nonzero (result_n host cpsr n z carry_out ∙ bit-nonzero n (digit-lt res 31)),
        flag-digit kept 30
            ∙ ap nonzero (result_z host cpsr n z carry_out ∙ to_bit-nonzero (res == 0))
            ∙ nonzero-to_bit (res == 0),
        λ i h. result_below host cpsr n z carry_out i (omega arith),
      )

  -- Every operation writes N and Z from its result, and keeps the lower 28 bits.
  pub status_common :
      (flag after 31 ≡ nonzero (digit res 31))
      × (flag after 30 ≡ (res == 0))
      × ((i : ℕ) → i < 28 → digit after i ≡ digit cpsr i)
  status_common =
      both_ways (is_arithmetic opcode) (λ kind. let d = status-arithmetic kind in (d.0, d.1, d.4))
        status_other
