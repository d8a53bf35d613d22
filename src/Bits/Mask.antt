-- ===== src/Bits/Mask.antt =====
-- Masks and fields as quotients and remainders by powers of two.
use native.Mathlib.Nat.{
  pow-suc, div-div-eq-div-mul, one-le-pow, div-one, mod-lt, mod-eq_of_lt, div-add-mod,
  add-mul-mod_self_left,
}
use projet_s.Common.{
  ℕ, zero, suc, ◌+◌, ◌-◌, ◌*◌, ◌/◌, ◌%◌, ◌^◌, ◌<◌, bit_and, bit_or, ◌≡◌, arith, ap, ◌∙◌,
}
use projet_s.Bits.Step.{bit_and_step, bit_or_step}
use projet_s.Bits.Digit.{bit_and-zero, bit_or-zero}

-- Every number is below some power of two.
lt-two-pow : (a : ℕ) → a < 2 ^ a
lt-two-pow zero = omega arith
lt-two-pow (suc a) = omega (arith, pow-suc 2 a, lt-two-pow a)

pub div-two-pow-suc : (a k : ℕ) → a / 2 ^ suc k ≡ a / 2 / 2 ^ k
div-two-pow-suc a k = rw (div-div-eq-div-mul, pow-suc) (ap (λ (t : ℕ). a / t) (omega arith))

pub mod-two-mul : (a t : ℕ) → 0 < t → a % (t * 2) ≡ a / 2 % t * 2 + a % 2
mod-two-mul a t pos =
    ap (λ (n : ℕ). n % (t * 2)) split
    ∙ add-mul-mod_self_left low (t * 2) (a / 2 / t)
    ∙ mod-eq_of_lt (omega (arith, mod-lt (a / 2) pos))
  where
    low : ℕ
    low = a / 2 % t * 2 + a % 2

    split : a ≡ low + t * 2 * (a / 2 / t)
    split = omega (arith, div-add-mod (a / 2) t)

-- A mask of the k low digits is the remainder by 2 ^ k.
pub bit_and-mask : (k a : ℕ) → bit_and a (2 ^ k - 1) ≡ a % 2 ^ k
bit_and-mask zero a = omega (arith, bit_and-zero a a (lt-two-pow a))
bit_and-mask (suc k) a =
    bit_and_step a (2 ^ suc k - 1)
    ∙ rw (halved, bit_and-mask k (a / 2), pow-suc)
        (rw (mod-two-mul a (2 ^ k) positive) (omega (arith, positive)))
  where
    positive : 0 < 2 ^ k
    positive = one-le-pow k 2 (omega arith)

    halved : (2 ^ suc k - 1) / 2 ≡ 2 ^ k - 1
    halved = omega (arith, pow-suc 2 k, positive)

bit_and-half : (a b : ℕ) → bit_and a b / 2 ≡ bit_and (a / 2) (b / 2)
bit_and-half a b = omega (arith, bit_and_step a b)

-- A conjunction can be shifted down.
pub bit_and-div : (k a b : ℕ) → bit_and a b / 2 ^ k ≡ bit_and (a / 2 ^ k) (b / 2 ^ k)
bit_and-div zero a b = rw (div-one (bit_and a b), div-one a, div-one b)
bit_and-div (suc k) a b =
    rw (div-two-pow-suc (bit_and a b) k, div-two-pow-suc a k, div-two-pow-suc b k, bit_and-half a b)
      (bit_and-div k (a / 2) (b / 2))

-- The disjunction of a multiple of 2 ^ k and a number below 2 ^ k is their sum.
pub bit_or-fields : (k q r : ℕ) → r < 2 ^ k → bit_or (q * 2 ^ k) r ≡ q * 2 ^ k + r
bit_or-fields zero q zero h = rw unit (omega (arith, bit_or-zero q q (lt-two-pow q)))
  where
    unit : q * 2 ^ 0 ≡ q
    unit = omega arith
bit_or-fields zero q (suc r) h = absurd (omega arith)
bit_or-fields (suc k) q r h =
    bit_or_step (q * 2 ^ suc k) r
    ∙ rw (halved, bit_or-fields k q (r / 2) (omega (arith, pow-suc 2 k))) (omega (arith, doubled))
  where
    doubled : q * 2 ^ suc k ≡ q * 2 ^ k * 2
    doubled = omega (arith, ap (λ (t : ℕ). q * t) (pow-suc 2 k))

    halved : q * 2 ^ suc k / 2 ≡ q * 2 ^ k
    halved = omega (arith, doubled)

-- A mask shifted into place.
pub bit_and-scaled : (k x m : ℕ) → bit_and x (m * 2 ^ k) ≡ bit_and (x / 2 ^ k) m * 2 ^ k
bit_and-scaled zero x m = rw (unit m, div-one x) (omega arith)
  where
    unit : (t : ℕ) → t * 2 ^ 0 ≡ t
    unit t = omega arith
bit_and-scaled (suc k) x m =
    bit_and_step x (m * 2 ^ suc k)
    ∙ rw (halved, bit_and-scaled k (x / 2) m, ← div-two-pow-suc x k)
        (omega (arith, doubled m, doubled (bit_and (x / 2 ^ suc k) m)))
  where
    doubled : (q : ℕ) → q * 2 ^ suc k ≡ q * 2 ^ k * 2
    doubled q = omega (arith, ap (λ (t : ℕ). q * t) (pow-suc 2 k))

    halved : m * 2 ^ suc k / 2 ≡ m * 2 ^ k
    halved = omega (arith, doubled m)
