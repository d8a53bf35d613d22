-- ===== src/Common/Tests.antt =====
-- Boolean tests on the native numbers, and the conditional.
use Prim.Native.Nat.{ℕ, zero, suc, ◌<◌, compare, Ordering}
use mathlib.Core.Path.{◌≡◌, refl}
use mathlib.Core.Logic.{◌↔◌, ◌⊎◌, inl, inr}
use mathlib.Core.Bool.{Bool, true, false, ◌&&◌}
use native.Mathlib.Omega.{arith}

abbrev pub ltb : ℕ → ℕ → Bool
ltb a b = elim (compare a b) [ Ordering.lt ↦ true | _ ↦ false ]

abbrev pub leb : ℕ → ℕ → Bool
leb a b = elim (compare a b) [ Ordering.gt ↦ false | _ ↦ true ]

infix 50 ◌==◌
abbrev pub ◌==◌ : ℕ → ℕ → Bool
a == b = elim (compare a b) [ Ordering.eq ↦ true | _ ↦ false ]

infix 1 if◌then◌else◌
abbrev pub if◌then◌else◌ {ℓ} : {A : Type ℓ} → Bool → A → A → A
if true then x else y = x
if false then x else y = y

-- The 0 or 1 that a C test yields.
abbrev pub to_bit : Bool → ℕ
to_bit true = 1
to_bit false = 0

-- A C number as a condition.
abbrev pub nonzero : ℕ → Bool
nonzero n = ltb 0 n

pub ==_iff : (a b : ℕ) → ((a == b) ≡ true) ↔ (a ≡ b)
==_iff a b = ground arith

pub Bool-cases : (b : Bool) → (b ≡ true) ⊎ (b ≡ false)
Bool-cases true = inl refl
Bool-cases false = inr refl

-- A proof for each value of a test.
pub both_ways {ℓ} : {P : Type ℓ} (b : Bool) → ((b ≡ true) → P) → ((b ≡ false) → P) → P
both_ways true p q = p refl
both_ways false p q = q refl

-- What holds of both branches holds of the conditional.
pub if_both {ℓ κ} :
    {A : Type ℓ} (P : A → Type κ) (b : Bool) {x y : A} → P x → P y → P (if b then x else y)
if_both P true h k = h
if_both P false h k = k

-- A test that passes below a bound, number by number.
abbrev pub below : (ℕ → Bool) → ℕ → Bool
below test zero = true
below test (suc n) = test n && below test n

pub below-true : (test : ℕ → Bool) (n x : ℕ) → below test n ≡ true → x < n → test x ≡ true
below-true test zero x all h = ground arith
below-true test (suc n) x all h = ground (arith, below-true test n x)
