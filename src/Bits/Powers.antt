-- ===== src/Bits/Powers.antt =====
-- Digits of powers of two, complements, quotients, products and remainders.
use projet_s.Common.{
  ℕ, zero, suc, ◌+◌, ◌-◌, ◌*◌, ◌/◌, ◌%◌, ◌^◌, ◌≤◌, ◌<◌, ◌≡◌, refl, arith, ap, ◌∙◌, ◌==◌,
  if◌then◌else◌,
}
use projet_s.Bits.Digit.{digit}
use projet_s.Bits.Mask.{div-two-pow-suc, mod-two-mul}
use native.Mathlib.Nat.{pow-suc, one-le-pow}

pub digit-zero : (i : ℕ) → digit 0 i ≡ 0
unfolding digit
digit-zero zero = refl
digit-zero (suc i) = digit-zero i

halves : (w x : ℕ) → x % 2 ^ suc w ≡ x / 2 % 2 ^ w * 2 + x % 2
halves w x = rw pow-suc (mod-two-mul x (2 ^ w) (one-le-pow w 2 (omega arith)))

pub digit-two-pow : (n i : ℕ) → digit (2 ^ n) i ≡ (if i == n then 1 else 0)
unfolding digit
digit-two-pow zero zero = refl
digit-two-pow zero (suc i) = ground (arith, digit-zero i)
digit-two-pow (suc n) zero = ground (arith, pow-suc 2 n)
digit-two-pow (suc n) (suc i) = ground (arith, ap (λ (t : ℕ). digit t i) halved, digit-two-pow n i)
  where
    halved : 2 ^ suc n / 2 ≡ 2 ^ n
    halved = omega (arith, pow-suc 2 n)

-- The digits of ~x, in a width.
pub digit-complement : (w x i : ℕ) → x < 2 ^ w → i < w → digit (2 ^ w - 1 - x) i ≡ 1 - digit x i
unfolding digit
digit-complement zero x i h k = absurd (omega arith)
digit-complement (suc w) x zero h k = omega (arith, pow-suc 2 w)
digit-complement (suc w) x (suc i) h k =
    ap (λ (t : ℕ). digit t i) halved
    ∙ digit-complement w (x / 2) i (omega (arith, pow-suc 2 w)) (omega arith)
  where
    halved : (2 ^ suc w - 1 - x) / 2 ≡ 2 ^ w - 1 - x / 2
    halved = omega (arith, pow-suc 2 w)

pub digit-ge : (w x i : ℕ) → x < 2 ^ w → w ≤ i → digit x i ≡ 0
unfolding digit
digit-ge zero zero i h k = digit-zero i
digit-ge zero (suc x) i h k = absurd (omega arith)
digit-ge (suc w) x zero h k = absurd (omega arith)
digit-ge (suc w) x (suc i) h k = digit-ge w (x / 2) i (omega (arith, pow-suc 2 w)) (omega arith)

pub digit-div : (k x i : ℕ) → digit (x / 2 ^ k) i ≡ digit x (k + i)
unfolding digit
digit-div zero x i = ap (λ (t : ℕ). digit t i) unit ∙ ap (digit x) shift
  where
    unit : x / 2 ^ 0 ≡ x
    unit = omega arith

    shift : i ≡ 0 + i
    shift = omega arith
digit-div (suc k) x i =
    ap (λ (t : ℕ). digit t i) (div-two-pow-suc x k) ∙ digit-div k (x / 2) i ∙ ap (digit x) shift
  where
    shift : suc (k + i) ≡ suc k + i
    shift = omega arith

halve-mul : (k x : ℕ) → x * 2 ^ suc k / 2 ≡ x * 2 ^ k
halve-mul k x = omega (arith, ap (λ (t : ℕ). x * t) (pow-suc 2 k))

-- Below the weight of the factor every digit is 0.
pub digit-mul_low : (k x i : ℕ) → i < k → digit (x * 2 ^ k) i ≡ 0
unfolding digit
digit-mul_low zero x i h = absurd (omega arith)
digit-mul_low (suc k) x zero h = omega (arith, ap (λ (t : ℕ). x * t) (pow-suc 2 k))
digit-mul_low (suc k) x (suc i) h =
    ap (λ (t : ℕ). digit t i) (halve-mul k x) ∙ digit-mul_low k x i (omega arith)

-- From there on stand the digits of the other factor.
pub digit-mul_high : (k x i : ℕ) → k ≤ i → digit (x * 2 ^ k) i ≡ digit x (i - k)
unfolding digit
digit-mul_high zero x i h = ap (λ (t : ℕ). digit t i) unit ∙ ap (digit x) shift
  where
    unit : x * 2 ^ 0 ≡ x
    unit = omega arith

    shift : i ≡ i - 0
    shift = omega arith
digit-mul_high (suc k) x zero h = absurd (omega arith)
digit-mul_high (suc k) x (suc i) h =
    ap (λ (t : ℕ). digit t i) (halve-mul k x)
    ∙ digit-mul_high k x i (omega arith)
    ∙ ap (digit x) shift
  where
    shift : i - k ≡ suc i - suc k
    shift = omega arith

-- A remainder by 2 ^ w keeps the w low digits.
pub digit-mod : (w x i : ℕ) → i < w → digit (x % 2 ^ w) i ≡ digit x i
unfolding digit
digit-mod zero x i h = absurd (omega arith)
digit-mod (suc w) x zero h = omega (arith, halves w x)
digit-mod (suc w) x (suc i) h =
    ap (λ (t : ℕ). digit t i) {y = x / 2 % 2 ^ w} (omega (arith, halves w x))
    ∙ digit-mod w (x / 2) i (omega arith)

pub digit-all_ones : (w i : ℕ) → i < w → digit (2 ^ w - 1) i ≡ 1
digit-all_ones w i h =
    ap (λ (t : ℕ). digit t i) less_zero
    ∙ digit-complement w 0 i (one-le-pow w 2 (omega arith)) h
    ∙ omega (arith, digit-zero i)
  where
    less_zero : 2 ^ w - 1 ≡ 2 ^ w - 1 - 0
    less_zero = omega arith
