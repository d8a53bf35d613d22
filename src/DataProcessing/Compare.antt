-- ===== src/DataProcessing/Compare.antt =====
-- What the conditions mean after an addition and after a comparison.
use mathlib.Core.Bool.{or_assoc}
use mathlib.Core.Path.{ap₂}
use projet_s.Instruction.{condition_passed}
use projet_s.Common.{
  ℕ, ◌+◌, ◌/◌, ◌%◌, ◌^◌, ◌<◌, ◌≡◌, refl, sym, ap, arith, ◌∙◌, ◌==◌, ltb, leb, ◌&&◌, ◌||◌, not, Bool,
  true, false, if◌then◌else◌, nonzero,
}
use projet_s.Constants.Opcode
use projet_s.Constants.Condition
use projet_s.Word.{Host, add32, sub32, not32}
use projet_s.Word.Signed.{signed32, leb_ℤ, ltb_ℤ, fits32, ◌+ℤ◌, ◌-ℤ◌}
use projet_s.Bits.{digit, digit-eq-mod}
use projet_s.DataProcessing.{status, is_arithmetic, is_subtraction}
use projet_s.DataProcessing.Flags.{flag, status-arithmetic}

-- The sign of a word.
abbrev sign : ℕ → ℕ
sign x = x / 2 ^ 31 % 2

abbrev same_bit : Bool → Bool → Bool
same_bit a b = if a then b else not b

-- The sign of the difference and the overflow agree exactly when the first number is not below.
difference_sign :
    (a b : ℕ)
    → a < 2 ^ 32
    → b < 2 ^ 32
    → same_bit
        (nonzero (sign (sub32 a b)))
        (sign a == sign (not32 b) && not (sign (not32 b) == sign (sub32 a b)))
      ≡ leb_ℤ (signed32 b) (signed32 a)
difference_sign a b ha hb = ground arith

difference_carry :
    (a b : ℕ)
    → a < 2 ^ 32
    → b < 2 ^ 32
    → (nonzero (sign a) && nonzero (sign (not32 b))
        || not (nonzero (sign (sub32 a b))) && not (sign a == sign (not32 b)))
      ≡ leb b a
difference_carry a b ha hb = ground arith

difference_overflow :
    (a b : ℕ)
    → a < 2 ^ 32
    → b < 2 ^ 32
    → (sign a == sign (not32 b) && not (sign (not32 b) == sign (sub32 a b)))
      ≡ not (fits32 (signed32 a -ℤ signed32 b))
difference_overflow a b ha hb = ground arith

sum_carry :
    (a b : ℕ)
    → a < 2 ^ 32
    → b < 2 ^ 32
    → (nonzero (sign a) && nonzero (sign b)
        || not (nonzero (sign (add32 a b))) && not (sign a == sign b))
      ≡ leb (2 ^ 32) (a + b)
sum_carry a b ha hb = ground arith

sum_overflow :
    (a b : ℕ)
    → a < 2 ^ 32
    → b < 2 ^ 32
    → (sign a == sign b && not (sign b == sign (add32 a b)))
      ≡ not (fits32 (signed32 a +ℤ signed32 b))
sum_overflow a b ha hb = ground arith

-- Whether an instruction with that condition is executed under a status word.
abbrev pub holds : ℕ → ℕ → Bool
holds s cond = condition_passed (flag s 31) (flag s 30) (flag s 29) (flag s 28) cond

difference_zero : (a b : ℕ) → a < 2 ^ 32 → b < 2 ^ 32 → (sub32 a b == 0) ≡ (a == b)
difference_zero a b ha hb = ground arith

-- An order on numbers is decided from its reverse and equality.
signed_cases :
    (a b : ℕ)
    → a < 2 ^ 32
    → b < 2 ^ 32
    → (ltb_ℤ (signed32 b) (signed32 a) ≡ (not (a == b) && leb_ℤ (signed32 b) (signed32 a)))
      × (leb_ℤ (signed32 a) (signed32 b) ≡ (a == b || not (leb_ℤ (signed32 b) (signed32 a))))
      × (ltb_ℤ (signed32 a) (signed32 b) ≡ not (leb_ℤ (signed32 b) (signed32 a)))
signed_cases a b ha hb = ground arith

unsigned_cases :
    (a b : ℕ)
    → (ltb a b ≡ not (leb b a))
      × (ltb b a ≡ (leb b a && not (a == b)))
      × (leb a b ≡ (not (leb b a) || a == b))
unsigned_cases a b = ground arith

negative : (w : ℕ) → w < 2 ^ 32 → nonzero (sign w) ≡ leb (2 ^ 31) w
negative w h = ground arith

not_subtracted : (t : Bool) (m n : ℕ) → (if t && false then m else n) ≡ n
not_subtracted true m n = refl
not_subtracted false m n = refl

module _ (host : Host) (cpsr a b carry_out : ℕ) (ha : a < 2 ^ 32) (hb : b < 2 ^ 32)
    (pos : 0 < a) where
  abbrev compared : ℕ
  compared = status host Opcode.cmp cpsr a b (sub32 a b) carry_out

  compared_flags :
      (same_bit (flag compared 31) (flag compared 28) ≡ leb_ℤ (signed32 b) (signed32 a))
      × (flag compared 30 ≡ (a == b))
      × (flag compared 29 ≡ (nonzero carry_out || leb b a))
  unfolding is_arithmetic is_subtraction
  compared_flags =
      let flags = status-arithmetic host Opcode.cmp cpsr a b (sub32 a b) carry_out refl in
      rw
        (
          flags.0,
          flags.1,
          flags.2,
          flags.3,
          nonzero_a,
          digit-eq-mod a 31,
          digit-eq-mod (not32 b) 31,
          digit-eq-mod (sub32 a b) 31,
        )
        (
          difference_sign a b ha hb,
          difference_zero a b ha hb,
          or_assoc (nonzero carry_out) _ _
              ∙ ap (λ (t : Bool). nonzero carry_out || t) (difference_carry a b ha hb),
        )
    where
      nonzero_a : nonzero a ≡ true
      nonzero_a = ground arith

  -- After a comparison of two words, of which the first is not 0, the conditions GE, LT, GT, LE, EQ
  -- and NE hold exactly when the signed numbers of the words are in that order.
  pub status-compared :
      (holds compared Condition.ge ≡ leb_ℤ (signed32 b) (signed32 a))
      × (holds compared Condition.lt ≡ ltb_ℤ (signed32 a) (signed32 b))
      × (holds compared Condition.gt ≡ ltb_ℤ (signed32 b) (signed32 a))
      × (holds compared Condition.le ≡ leb_ℤ (signed32 a) (signed32 b))
      × (holds compared Condition.eq ≡ (a == b))
      × (holds compared Condition.ne ≡ not (a == b))
  unfolding condition_passed
  status-compared =
      let flags = compared_flags in
      let order = signed_cases a b ha hb in
      (
        flags.0,
        ap not flags.0 ∙ sym order.2,
        ap₂ (λ s t. not s && t) flags.1 flags.0 ∙ sym order.0,
        ap₂ (λ s t. s || not t) flags.1 flags.0 ∙ sym order.1,
        flags.1,
        ap not flags.1,
      )

  compared_below : carry_out ≡ 0 → flag compared 29 ≡ leb b a
  compared_below none_out = compared_flags.2 ∙ rw none_out refl

  -- After a comparison of two words, of which the first is not 0, with the carry 0 from the shifter,
  -- the conditions CS, CC, HI and LS hold exactly when the words, read as unsigned numbers, are in
  -- that order.
  pub status-compared_unsigned :
      carry_out ≡ 0
      → (holds compared Condition.cs ≡ leb b a)
        × (holds compared Condition.cc ≡ ltb a b)
        × (holds compared Condition.hi ≡ ltb b a)
        × (holds compared Condition.ls ≡ leb a b)
  unfolding condition_passed
  status-compared_unsigned none_out =
      let order = unsigned_cases a b in
      let carry = compared_below none_out in
      (
        carry,
        ap not carry ∙ sym order.0,
        ap₂ (λ s t. s && not t) carry compared_flags.1 ∙ sym order.1,
        ap₂ (λ s t. not s || t) carry compared_flags.1 ∙ sym order.2,
      )

module _ (host : Host) (cpsr a b carry_out : ℕ) (ha : a < 2 ^ 32) (hb : b < 2 ^ 32) where
  abbrev pub summed : ℕ
  summed = status host Opcode.add cpsr a b (add32 a b) carry_out

  -- After an addition of two words, MI holds exactly when the word of the sum is negative, EQ when
  -- it is 0, VS when the signed sum is not that of a word and, with the carry 0 from the shifter, CS
  -- when the unsigned sum is not below 2 ^ 32.
  pub status-summed :
      carry_out ≡ 0
      → (holds summed Condition.mi ≡ leb (2 ^ 31) (add32 a b))
        × (holds summed Condition.eq ≡ (add32 a b == 0))
        × (holds summed Condition.vs ≡ not (fits32 (signed32 a +ℤ signed32 b)))
        × (holds summed Condition.cs ≡ leb (2 ^ 32) (a + b))
  unfolding condition_passed is_arithmetic is_subtraction
  status-summed none_out =
      let flags = status-arithmetic host Opcode.add cpsr a b (add32 a b) carry_out refl in
      rw
        (
          flags.0,
          flags.1,
          flags.2,
          flags.3,
          none_out,
          not_subtracted (nonzero a) (digit (not32 b) 31) (digit b 31),
          digit-eq-mod a 31,
          digit-eq-mod b 31,
          digit-eq-mod (add32 a b) 31,
        )
        (negative (add32 a b) (omega arith), refl, sum_overflow a b ha hb, sum_carry a b ha hb)
