-- ===== src/Bits/Digit.antt =====
-- The binary digits of a number, and the bitwise operations digit by digit.
use Prim.Native.Nat.{bit_and-bitwise, bit_or-bitwise, bit_xor-bitwise}
use native.Mathlib.Nat.{pow-suc, div-div-eq-div-mul}
use projet_s.Common.{
  ℕ, zero, suc, ◌+◌, ◌/◌, ◌%◌, ◌^◌, ◌≤◌, ◌<◌, min, max, bit_and, bit_or, bit_xor, ◌≡◌, refl, arith,
  ap, ◌∙◌,
}
use projet_s.Bits.Step.{bit_and_step, bit_or_step, bit_xor_step}

-- The digit of weight 2 ^ i.
unfoldable pub digit : ℕ → ℕ → ℕ
digit a zero = a % 2
digit a (suc i) = digit (a / 2) i

pub digit-eq-mod : (a i : ℕ) → digit a i ≡ a / 2 ^ i % 2
unfolding digit
digit-eq-mod a zero = omega arith
digit-eq-mod a (suc i) =
    digit-eq-mod (a / 2) i
    ∙ rw (div-div-eq-div-mul, pow-suc) (ap (λ (t : ℕ). a / t % 2) (omega arith))

pub digit-lt : (a i : ℕ) → digit a i < 2
unfolding digit
digit-lt a zero = omega arith
digit-lt a (suc i) = digit-lt (a / 2) i

pub digit-bit_and : (a b i : ℕ) → digit (bit_and a b) i ≡ min (digit a i) (digit b i)
unfolding digit
digit-bit_and a b zero = omega (arith, bit_and_step a b)
digit-bit_and a b (suc i) =
    ap (λ t. digit t i) (omega (arith, bit_and_step a b)) ∙ digit-bit_and (a / 2) (b / 2) i

pub digit-bit_or : (a b i : ℕ) → digit (bit_or a b) i ≡ max (digit a i) (digit b i)
unfolding digit
digit-bit_or a b zero = omega (arith, bit_or_step a b)
digit-bit_or a b (suc i) =
    ap (λ t. digit t i) (omega (arith, bit_or_step a b)) ∙ digit-bit_or (a / 2) (b / 2) i

pub digit-bit_xor : (a b i : ℕ) → digit (bit_xor a b) i ≡ (digit a i + digit b i) % 2
unfolding digit
digit-bit_xor a b zero = omega (arith, bit_xor_step a b)
digit-bit_xor a b (suc i) =
    ap (λ t. digit t i) (omega (arith, bit_xor_step a b)) ∙ digit-bit_xor (a / 2) (b / 2) i

-- Numbers below 2 ^ w with the same w digits are the same.
pub digit_ext :
    (w a b : ℕ) → a < 2 ^ w → b < 2 ^ w → ((i : ℕ) → i < w → digit a i ≡ digit b i) → a ≡ b
unfolding digit
digit_ext zero a b p q h = omega arith
digit_ext (suc w) a b p q h = omega (
  arith,
  h 0 (omega arith),
  digit_ext w (a / 2) (b / 2) (omega (arith, pow-suc 2 w)) (omega (arith, pow-suc 2 w))
      (λ i k. h (suc i) (omega arith)),
)

-- The operations stay inside a width.
pub bit_and-le : (w a b : ℕ) → a < 2 ^ w → bit_and a b ≤ a
bit_and-le zero zero b h = omega (arith, bit_and-bitwise 0 b)
bit_and-le zero (suc a) b h = absurd (omega arith)
bit_and-le (suc w) a b h =
    omega (arith, bit_and_step a b, bit_and-le w (a / 2) (b / 2) (omega (arith, pow-suc 2 w)))

pub bit_or-lt : (w a b : ℕ) → a < 2 ^ w → b < 2 ^ w → bit_or a b < 2 ^ w
bit_or-lt zero zero b h k = omega (arith, bit_or-bitwise 0 b)
bit_or-lt zero (suc a) b h k = absurd (omega arith)
bit_or-lt (suc w) a b h k = omega (
  arith,
  pow-suc 2 w,
  bit_or_step a b,
  bit_or-lt w (a / 2) (b / 2) (omega (arith, pow-suc 2 w)) (omega (arith, pow-suc 2 w)),
)

pub bit_xor-lt : (w a b : ℕ) → a < 2 ^ w → b < 2 ^ w → bit_xor a b < 2 ^ w
bit_xor-lt zero zero b h k = omega (arith, bit_xor-bitwise 0 b)
bit_xor-lt zero (suc a) b h k = absurd (omega arith)
bit_xor-lt (suc w) a b h k = omega (
  arith,
  pow-suc 2 w,
  bit_xor_step a b,
  bit_xor-lt w (a / 2) (b / 2) (omega (arith, pow-suc 2 w)) (omega (arith, pow-suc 2 w)),
)

pub bit_and-zero : (w a : ℕ) → a < 2 ^ w → bit_and a 0 ≡ 0
bit_and-zero zero zero h = refl
bit_and-zero zero (suc a) h = absurd (omega arith)
bit_and-zero (suc w) a h =
    omega (arith, bit_and_step a 0, bit_and-zero w (a / 2) (omega (arith, pow-suc 2 w)))

pub bit_or-zero : (w a : ℕ) → a < 2 ^ w → bit_or a 0 ≡ a
bit_or-zero zero zero h = refl
bit_or-zero zero (suc a) h = absurd (omega arith)
bit_or-zero (suc w) a h =
    omega (arith, bit_or_step a 0, bit_or-zero w (a / 2) (omega (arith, pow-suc 2 w)))

pub bit_or_self : (w a : ℕ) → a < 2 ^ w → bit_or a a ≡ a
bit_or_self zero zero h = refl
bit_or_self zero (suc a) h = absurd (omega arith)
bit_or_self (suc w) a h =
    omega (arith, bit_or_step a a, bit_or_self w (a / 2) (omega (arith, pow-suc 2 w)))

pub bit_or_comm : (w a b : ℕ) → a < 2 ^ w → b < 2 ^ w → bit_or a b ≡ bit_or b a
bit_or_comm w a b h k =
    digit_ext w (bit_or a b) (bit_or b a) (bit_or-lt w a b h k) (bit_or-lt w b a k h)
      λ i p. omega (arith, digit-bit_or a b i, digit-bit_or b a i)
